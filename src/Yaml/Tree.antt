-- ===== src/Yaml/Tree.antt =====
-- The YAML documents that files have: nodes, the events of a node, and what libyaml promises of
-- them.
use famfs.Prelude.{ℕ, ◌≡◌, Bool, true, ◌&&◌, List, [], ◌∷◌, ◌++◌, leb, ltb}
use famfs.Yaml.{Event, stream_start, stream_end, document_start, document_end, seq_start, seq_end}
use famfs.Yaml.{map_start, map_end, scalar, Libyaml, emit_all}

mutual
  pub data Node : Type 0 where
    leaf : List ℕ → Node
    sequence : Items → Node
    mapping : Pairs → Node

  pub data Items : Type 0 where
    no_item : Items
    item : Node → Items → Items

  pub data Pairs : Type 0 where
    no_pair : Pairs
    pair : List ℕ → Node → Pairs → Pairs

unfoldable mutual
  pub events : Node → List Event
  events (leaf text) = scalar text ∷ []
  events (sequence is) = seq_start ∷ item_events is ++ (seq_end ∷ [])
  events (mapping ps) = map_start ∷ pair_events ps ++ (map_end ∷ [])

  pub item_events : Items → List Event
  item_events no_item = []
  item_events (item n is) = events n ++ item_events is

  pub pair_events : Pairs → List Event
  pair_events no_pair = []
  pair_events (pair key n ps) = scalar key ∷ events n ++ pair_events ps

abbrev pub document : Node → List Event
document n = stream_start ∷ document_start ∷ events n ++ (document_end ∷ stream_end ∷ [])

-- Printable ASCII
unfoldable pub is_printable : List ℕ → Bool
is_printable [] = true
is_printable (c ∷ cs) = leb 32 c && ltb c 127 && is_printable cs

abbrev pub IsPrintable : List ℕ → Type 0
IsPrintable text = is_printable text ≡ true

unfoldable mutual
  pub IsText : Node → Type 0
  IsText (leaf text) = IsPrintable text
  IsText (sequence is) = AreTexts is
  IsText (mapping ps) = ArePairs ps

  pub AreTexts : Items → Type 0
  AreTexts no_item = Unit
  AreTexts (item n is) = IsText n × AreTexts is

  pub ArePairs : Pairs → Type 0
  ArePairs no_pair = Unit
  ArePairs (pair key n ps) = IsPrintable key × IsText n × ArePairs ps

-- libyaml works: there is memory, a document of printable text is accepted, and the file that it
-- is written to is read back as the same events.
pub record IsFaithful (y : Libyaml) : Type 0 where
  pub emitter_works : y.emitter_ready ≡ true
  pub parser_works : y.parser_ready ≡ true
  pub reads_back :
      (n : Node)
      → IsText n
      → (s : y.State) × (emit_all y y.start (document n) ≡ (s, true))
        × (y.read_events (y.written s) ≡ document n)
