-- ===== src/Yaml/Emit/Events.antt =====
-- What the writers write is the document of the file, whole if libyaml takes it all.
use mathlib.Core.List.{append_assoc, append-nil}
use famfs.Prelude.{
  ℕ, zero, suc, ◌+◌, ◌≡◌, refl, ap, ◌∙◌, List, [], ◌∷◌, ◌++◌, ◌==◌, if◌then◌else◌, Bool-cases, inl,
  inr,
}
use famfs.Prelude.Text.{codes}
use famfs.Meta.{SimpleExtent, LogFmap, LogFileMeta, ext_simple, ext_interleave}
use famfs.Meta.Fmap.{fmap_nextents, fmap_niext, se, ie_nstrips, ie_strips}
use famfs.Yaml.{Event, seq_start, seq_end, map_end, document_end, stream_end, scalar}
use famfs.Yaml.Tree.{events, item_events, pair_events, document}
use famfs.Yaml.Emit.Document.{extents_node, extent_items, interleaved_items, list_pairs, file_node}
use famfs.Yaml.Emit.{
  loop_bound, extent_events, extents_events, interleaved_fields, section_events, opening, closing,
}

-- The document as a list of events, part by part as the writers write it.
unfoldable pub simple_events : (ℕ → SimpleExtent) → ℕ → List Event
simple_events f n =
    scalar (codes "simple_ext_list") ∷ seq_start ∷ extents_events f (loop_bound n) 0
    ++ (seq_end ∷ [])

unfoldable pub interleaved_events : LogFmap → ℕ → ℕ → List Event
interleaved_events fm zero i = []
interleaved_events fm (suc left) i =
    interleaved_fields fm i
    ++ (simple_events (ie_strips fm i) (ie_nstrips fm i)
        ++ (map_end ∷ interleaved_events fm left (i + 1)))

unfoldable pub list_events : LogFmap → List Event
list_events fm =
    if fm.fmap_ext_type == ext_simple
    then simple_events (se fm) (fmap_nextents fm)
    else if fm.fmap_ext_type == ext_interleave
    then scalar (codes "striped_ext_list") ∷ seq_start ∷ interleaved_events fm (fmap_niext fm) 0
      ++ (seq_end ∷ [])
    else []

unfoldable pub file_events : LogFileMeta → List Event
file_events fm = opening ++ (section_events fm ++ (list_events fm.fm_fmap ++ closing))

items-extents :
    (f : ℕ → SimpleExtent) (left i : ℕ)
    → item_events (extent_items f left i) ≡ extents_events f left i
unfolding item_events extent_items extents_events
items-extents f zero i = refl
items-extents f (suc left) i =
    ap (λ more. extent_events (f i) ++ more) (items-extents f left (i + 1))

node-extents :
    (f : ℕ → SimpleExtent) (n : ℕ)
    → scalar (codes "simple_ext_list") ∷ events (extents_node f n) ≡ simple_events f n
unfolding events simple_events
node-extents f n =
    ap (λ more. scalar (codes "simple_ext_list") ∷ seq_start ∷ more ++ (seq_end ∷ []))
      (items-extents f (loop_bound n) 0)

-- The end of a mapping whose last value has the events `S`.
last_value : (S rest : List Event) → ((S ++ []) ++ (map_end ∷ [])) ++ rest ≡ S ++ (map_end ∷ rest)
last_value S rest =
    ap (λ T. (T ++ (map_end ∷ [])) ++ rest) (append-nil S) ∙ append_assoc S (map_end ∷ []) rest

items-interleaved :
    (fm : LogFmap) (left i : ℕ)
    → item_events (interleaved_items fm left i) ≡ interleaved_events fm left i
unfolding item_events interleaved_items interleaved_events
items-interleaved fm zero i = refl
items-interleaved fm (suc left) i =
    let f = ie_strips fm i in
    let n = ie_nstrips fm i in
    let rest = item_events (interleaved_items fm left (i + 1)) in
    let strips = events (extents_node f n) in
    ap (λ more. interleaved_fields fm i ++ (scalar (codes "simple_ext_list") ∷ more))
      (last_value strips rest)
    ∙ ap (λ more. interleaved_fields fm i ++ (more ++ (map_end ∷ rest))) (node-extents f n)
    ∙ ap (λ more. interleaved_fields fm i ++ (simple_events f n ++ (map_end ∷ more)))
        (items-interleaved fm left (i + 1))

pairs-list : (fm : LogFmap) → pair_events (list_pairs fm) ≡ list_events fm
unfolding pair_events list_pairs list_events events
pairs-list fm = elim (Bool-cases (fm.fmap_ext_type == ext_simple)) [
  | inl y ↦ rw y (
      ap (λ more. scalar (codes "simple_ext_list") ∷ more)
        (append-nil (events (extents_node (se fm) (fmap_nextents fm))))
      ∙ node-extents (se fm) (fmap_nextents fm))
  | inr other ↦ elim (Bool-cases (fm.fmap_ext_type == ext_interleave)) [
    | inl y ↦
        rw (other, y)
          (ap (λ more. scalar (codes "striped_ext_list") ∷ more) (append-nil _)
            ∙ ap (λ more. scalar (codes "striped_ext_list") ∷ seq_start ∷ more ++ (seq_end ∷ []))
                (items-interleaved fm (fmap_niext fm) 0))
    | inr neither ↦ rw (other, neither) refl
  ]
]

pub document-file_node : (fm : LogFileMeta) → document (file_node fm) ≡ file_events fm
unfolding events pair_events file_node file_events
document-file_node fm =
    let L = pair_events (list_pairs fm.fm_fmap) in
    let end = document_end ∷ stream_end ∷ [] in
    ap (λ more. opening ++ (section_events fm ++ more))
      (last_value (L ++ (map_end ∷ [])) end
        ∙ append_assoc L (map_end ∷ []) (map_end ∷ end)
        ∙ ap (λ more. more ++ closing) (pairs-list fm.fm_fmap))
