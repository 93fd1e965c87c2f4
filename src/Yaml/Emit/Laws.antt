-- ===== src/Yaml/Emit/Laws.antt =====
-- The writers on a libyaml that takes the whole document.
use mathlib.Core.Path.{subst}
use famfs.Prelude.{
  ℕ, zero, suc, ◌+◌, ◌≡◌, refl, ap, ◌∙◌, true, false, some, List, [], ◌∷◌, ◌++◌, ◌==◌,
  if◌then◌else◌, arith, Bool-cases, inl, inr,
}
use famfs.Prelude.Text.{codes}
use famfs.Meta.{SimpleExtent, LogFmap, LogFileMeta, ext_simple, ext_interleave}
use famfs.Meta.Fmap.{fmap_nextents, fmap_niext, se, ie_nstrips, ie_strips}
use famfs.Yaml.{Event, seq_start, map_end, scalar, Libyaml, emit_all}
use famfs.Yaml.Tree.{document}
use famfs.Yaml.Emit.Document.{file_node}
use famfs.Yaml.Emit.Events.{
  simple_events, interleaved_events, list_events, file_events, document-file_node,
}
use famfs.Yaml.Emit.{
  interleaved_fields, section_events, opening, emit_simple_ext_list, emit_interleaved,
  emit_striped_ext_list, emit_list, after_fields, emit_file_section, after_section, after_opening,
  famfs_emit_file_yaml,
}

module _ (y : Libyaml) where
  abbrev Takes : y.State → List Event → y.State → Type 0
  Takes s es s' = emit_all y s es ≡ (s', true)

  one_taken :
      (s : y.State) (e : Event) (es : List Event) (s' : y.State)
      → Takes s (e ∷ es) s'
      → ((y.emit s e).1 ≡ true) × Takes (y.emit s e).0 es s'
  unfolding emit_all
  one_taken s e es s' h = elim (Bool-cases (y.emit s e).1) [
    | inl ok ↦ (ok, rw ok at h)
    | inr refused ↦ absurd (ground (arith, ap (λ r. r.1) h))
  ]

  split_taken :
      (s : y.State) (xs ys : List Event) (s' : y.State)
      → Takes s (xs ++ ys) s'
      → (s1 : y.State) × Takes s xs s1 × Takes s1 ys s'
  unfolding emit_all
  split_taken s [] ys s' h = (s, refl, h)
  split_taken s (x ∷ xs) ys s' h =
      let (ok, tail) = one_taken s x (xs ++ ys) s' h in
      let (s1, left, right) = split_taken (y.emit s x).0 xs ys s' tail in (s1, rw ok left, right)

  simple_taken :
      (s : y.State) (f : ℕ → SimpleExtent) (n : ℕ) (s' : y.State)
      → Takes s (simple_events f n) s'
      → emit_simple_ext_list y s f n ≡ (s', true)
  unfolding simple_events emit_simple_ext_list
  simple_taken s f n s' h = h

  interleaved_taken :
      (fm : LogFmap) (left i : ℕ) (s s' : y.State)
      → Takes s (interleaved_events fm left i) s'
      → emit_interleaved y fm left i s ≡ (s', true)
  unfolding interleaved_events emit_interleaved
  interleaved_taken fm zero i s s' h = unfold emit_all in h
  interleaved_taken fm (suc left) i s s' h =
      let f = ie_strips fm i in
      let n = ie_nstrips fm i in
      let (s1, fields, h1) = split_taken s (interleaved_fields fm i) _ s' h in
      let (s2, strips, h2) = split_taken s1 (simple_events f n) _ s' h1 in
      let (s3, ended, h3) = split_taken s2 (map_end ∷ []) _ s' h2 in
      rw (fields, simple_taken s1 f n s2 strips, ended) (interleaved_taken fm left (i + 1) s3 s' h3)

  list_taken :
      (fm : LogFmap) (s s' : y.State) → Takes s (list_events fm) s' → emit_list y fm s ≡ (s', true)
  unfolding list_events emit_list emit_striped_ext_list
  list_taken fm s s' h = elim (Bool-cases (fm.fmap_ext_type == ext_simple)) [
    | inl y ↦ rw y (simple_taken s (se fm) (fmap_nextents fm) s' (rw y at h))
    | inr other ↦ elim (Bool-cases (fm.fmap_ext_type == ext_interleave)) [
      | inl y ↦
          let start = scalar (codes "striped_ext_list") ∷ seq_start ∷ [] in
          let (s1, begun, h1) = split_taken s start _ s' (rw (other, y) at h) in
          let (s2, extents, h2) =
            split_taken s1 (interleaved_events fm (fmap_niext fm) 0) _ s' h1 in
          rw (other, y, begun, interleaved_taken fm (fmap_niext fm) 0 s1 s2 extents) h2
      | inr neither ↦ rw (other, neither) (unfold emit_all in rw (other, neither) at h)
    ]
  ]

  opened_taken :
      (fm : LogFileMeta) (s' : y.State)
      → Takes y.start (file_events fm) s'
      → after_opening y fm (emit_all y y.start opening) ≡ some (s', true)
  unfolding file_events after_opening emit_file_section after_fields after_section
  opened_taken fm s' h =
      let (s1, opened, h1) = split_taken y.start opening _ s' h in
      let (s2, fields, h2) = split_taken s1 (section_events fm) _ s' h1 in
      let (s3, listed, h3) = split_taken s2 (list_events fm.fm_fmap) _ s' h2 in
      rw (opened, fields, list_taken fm.fm_fmap s2 s3 listed, h3) refl

  pub file_taken :
      (fm : LogFileMeta) (s' : y.State)
      → y.emitter_ready ≡ true
      → emit_all y y.start (document (file_node fm)) ≡ (s', true)
      → famfs_emit_file_yaml y fm ≡ some (s', true)
  unfolding famfs_emit_file_yaml
  file_taken fm s' ready h =
      let taken =
        opened_taken fm s' (subst (λ es. Takes y.start es s') (document-file_node fm) h) in
      ap (λ b. if b then after_opening y fm (emit_all y y.start opening) else some (y.start, false))
        ready
      ∙ taken
