-- ===== src/Yaml/Parse/Alloc/Laws.antt =====
-- A configuration of the allocator as it is written by hand.
use famfs.Prelude.{
  ℕ, zero, suc, ◌*◌, ◌^◌, ◌≤◌, ◌<◌, ◌≡◌, refl, ap, ◌∙◌, true, List, [], ◌∷◌, arith, u64,
  if◌then◌else◌,
}
use famfs.Prelude.Lists.{length, take, list_eq}
use famfs.Prelude.Text.{codes}
use famfs.Meta.{Rc}
use famfs.Alloc.Param.{InterleaveParam}
use famfs.Yaml.{Event, map_start, map_end, scalar, document_end, stream_end, Libyaml}
use famfs.Yaml.Numbers.{print_signed, digit_value, strtoull_end}
use famfs.Yaml.Numbers.Laws.{strtoull-print_signed64}
use famfs.Yaml.Numbers.Units.{with_unit, with_unit-length, strtoull_end-with_unit}
use famfs.Yaml.Tree.{Node, leaf, mapping, no_pair, pair, events, pair_events, document}
use famfs.Yaml.Parse.{parsed, again, expect, expect_scalar, event_type}
use famfs.Yaml.Parse.Loop.{one_turn, last_turn}
use famfs.Yaml.Parse.Alloc.{
  unit, get_multiplier, stripe_key, scaled, sized_value, set_param, stripe_value, stripe_entry,
  stripe_turn, stripe_from, famfs_parse_stripe_config_yaml, end_alloc, after_stripe, alloc_stanza,
  whole_config, famfs_parse_alloc_yaml,
}

-- `interleaved_alloc:` with the three parameters, the chunk size with a unit.
abbrev pub config : ℕ → ℕ → ℕ → ℕ → Node
config nbuckets nstrips chunk c = mapping (
    pair (codes "interleaved_alloc")
      (mapping (
        pair (codes "nbuckets") (leaf (print_signed 64 nbuckets)) (
          pair (codes "nstrips") (leaf (print_signed 64 nstrips))
            (pair (codes "chunk_size") (leaf (with_unit chunk c)) no_pair))))
      no_pair)

take_short : (n : ℕ) (xs : List ℕ) → length xs ≤ n → take n xs ≡ xs
take_short zero [] h = refl
take_short zero (x ∷ xs) h = absurd (omega arith)
take_short (suc n) [] h = refl
take_short (suc n) (x ∷ xs) h = ap (λ ys. x ∷ ys) (take_short n xs (omega arith))

sized_value-with_unit :
    (n c : ℕ) → n < 2 ^ 64 → 10 ≤ digit_value c → sized_value (with_unit n c) ≡ u64 (n * unit c)
unfolding sized_value get_multiplier scaled
sized_value-with_unit n c h k =
    let short = with_unit-length n c h in
    ap (λ t. scaled (strtoull_end t).0 (get_multiplier (strtoull_end t).1))
      (take_short 255 (with_unit n c) (omega arith))
    ∙ ap (λ r. scaled r.0 (get_multiplier r.1)) (strtoull_end-with_unit n c h k)

stripes_read :
    (p : InterleaveParam) (nbuckets nstrips chunk c : ℕ) (rest : List Event)
    → nbuckets < 2 ^ 64
    → nstrips < 2 ^ 64
    → chunk < 2 ^ 64
    → 10 ≤ digit_value c
    → famfs_parse_stripe_config_yaml p (
        map_start
        ∷ scalar (codes "nbuckets")
        ∷ scalar (print_signed 64 nbuckets)
        ∷ scalar (codes "nstrips")
        ∷ scalar (print_signed 64 nstrips)
        ∷ scalar (codes "chunk_size")
        ∷ scalar (with_unit chunk c)
        ∷ map_end
        ∷ rest)
      ≡ parsed
          (record { nbuckets = nbuckets; nstrips = nstrips; chunk_size = u64 (chunk * unit c) })
          rest
unfolding famfs_parse_stripe_config_yaml stripe_from stripe_turn stripe_entry stripe_key
    stripe_value set_param expect expect_scalar event_type list_eq
stripes_read p nbuckets nstrips chunk c rest hb hs hc hu =
    let size = u64 (chunk * unit c) in
    let p1 = record p { nbuckets = nbuckets } in
    let p2 = record p1 { nstrips = nstrips } in
    let p3 = record p2 { chunk_size = size } in
    let e4 = map_end ∷ rest in
    let e3 = scalar (codes "chunk_size") ∷ scalar (with_unit chunk c) ∷ e4 in
    let e2 = scalar (codes "nstrips") ∷ scalar (print_signed 64 nstrips) ∷ e3 in
    let e1 = scalar (codes "nbuckets") ∷ scalar (print_signed 64 nbuckets) ∷ e2 in
    one_turn stripe_turn p p1 e1 e2 (parsed p3 rest)
      (ap (λ v. again (record p { nbuckets = v }) e2) (strtoull-print_signed64 nbuckets hb))
      (omega arith)
      (one_turn stripe_turn p1 p2 e2 e3 (parsed p3 rest)
        (ap (λ v. again (record p1 { nstrips = v }) e3) (strtoull-print_signed64 nstrips hs))
        (omega arith)
        (one_turn stripe_turn p2 p3 e3 e4 (parsed p3 rest)
          (ap (λ v. again (record p2 { chunk_size = v }) e4) (sized_value-with_unit chunk c hc hu))
          (omega arith) (last_turn stripe_turn p3 e4 (parsed p3 rest) refl)))
      (suc (length e1)) (omega arith)

document_params :
    (p : InterleaveParam) (nbuckets nstrips chunk c : ℕ)
    → nbuckets < 2 ^ 64
    → nstrips < 2 ^ 64
    → chunk < 2 ^ 64
    → 10 ≤ digit_value c
    → whole_config p (document (config nbuckets nstrips chunk c)) ≡ (
      Rc.ok,
      record { nbuckets = nbuckets; nstrips = nstrips; chunk_size = u64 (chunk * unit c) },
    )
unfolding whole_config alloc_stanza after_stripe end_alloc events pair_events expect expect_scalar
    event_type list_eq
document_params p nbuckets nstrips chunk c hb hs hc hu =
    ap after_stripe (
      stripes_read p nbuckets nstrips chunk c (map_end ∷ document_end ∷ stream_end ∷ []) hb hs hc
        hu)

-- A configuration with two parameters as "%lld" prints them, and the chunk size in decimal followed
-- by one character that is no decimal digit, all below 2 ^ 64, is read with 0 returned: the parameters are those, the chunk size times 2 ^ 10,
-- 2 ^ 20 or 2 ^ 30 after k, m or g in either case, times 1 after any other character, and wrapped
-- to 64 bits. What was there before does not matter.
pub alloc_config_read :
    (y : Libyaml) (file : y.Text) (p : InterleaveParam) (nbuckets nstrips chunk c : ℕ)
    → y.parser_ready ≡ true
    → y.read_events file ≡ document (config nbuckets nstrips chunk c)
    → nbuckets < 2 ^ 64
    → nstrips < 2 ^ 64
    → chunk < 2 ^ 64
    → 10 ≤ digit_value c
    → famfs_parse_alloc_yaml y file p ≡ (
      Rc.ok,
      record { nbuckets = nbuckets; nstrips = nstrips; chunk_size = u64 (chunk * unit c) },
    )
unfolding famfs_parse_alloc_yaml
alloc_config_read y file p nbuckets nstrips chunk c ready text hb hs hc hu =
    ap (λ b. if b then whole_config p (y.read_events file) else (Rc.failed, p)) ready
    ∙ ap (whole_config p) text
    ∙ document_params p nbuckets nstrips chunk c hb hs hc hu
