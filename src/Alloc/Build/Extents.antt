-- ===== src/Alloc/Build/Extents.antt =====
-- The extents that the log gives out, as a list, and that the loops of `famfs_build_bitmap` mark
-- exactly those.
use famfs.Prelude.{
  ℕ, zero, suc, ◌+◌, ◌%◌, ◌≡◌, refl, true, ◌==◌, if◌then◌else◌, List, [], ◌∷◌, ◌++◌, arith,
  Bool-cases, inl, inr,
}
use famfs.Prelude.Lists.{length, length-append, All, All-append_left, All-append_right}
use famfs.Meta.{
  SimpleExtent, LogFmap, ext_simple, ext_interleave, LogPayload, file, mkdir, add_daxdev, other,
  LogEntry, Checksum,
}
use famfs.Meta.Fmap.{fmap_nextents, fmap_niext, se, ie_nstrips, ie_strips}
use famfs.Log.{famfs_validate_log_entry}
use famfs.Alloc.Build.{
  Build, mark_simple, mark_strips, mark_interleaved, mark_fmap, mark_payload, mark_entry,
  mark_entries,
}
use famfs.Alloc.Build.Owners.{
  Fits, Ready, Marked, Marked-nil, Marked-bind, Marked-cons, Marked-same,
}

unfoldable pub simple_extents : LogFmap → ℕ → ℕ → List SimpleExtent
simple_extents ext zero j = []
simple_extents ext (suc left) j = se ext j ∷ simple_extents ext left (j + 1)

unfoldable pub strip_extents : LogFmap → ℕ → ℕ → ℕ → List SimpleExtent
strip_extents fmap i zero k = []
strip_extents fmap i (suc left) k = ie_strips fmap i k ∷ strip_extents fmap i left (k + 1)

-- The strips of the interleaved extents that the loop visits: number 0, 2, 4, …
unfoldable pub interleaved_extents : LogFmap → ℕ → ℕ → List SimpleExtent
interleaved_extents fmap zero j = []
interleaved_extents fmap (suc left) j =
    strip_extents fmap (j + j) (ie_nstrips fmap (j + j)) 0 ++ interleaved_extents fmap left (j + 1)

unfoldable pub fmap_extents : LogFmap → List SimpleExtent
fmap_extents fmap =
    if fmap.fmap_ext_type == ext_simple
    then simple_extents fmap (fmap_nextents fmap) 0
    else if fmap.fmap_ext_type == ext_interleave
    then interleaved_extents fmap (fmap_niext fmap) 0
    else []

unfoldable pub payload_extents : LogPayload → List SimpleExtent
payload_extents (file fm) = fmap_extents fm.fm_fmap
payload_extents (mkdir md) = []
payload_extents (add_daxdev dd) = []
payload_extents (other t) = []

-- The extents of the `left` entries from i on, leaving out the entries that fail their checks.
unfoldable pub log_extents : Checksum → (ℕ → LogEntry) → ℕ → ℕ → List SimpleExtent
log_extents sum entries zero i = []
log_extents sum entries (suc left) i =
    (if famfs_validate_log_entry sum (entries i) (entries i) i == 0
      then payload_extents (entries i).payload
      else [])
    ++ log_extents sum entries left (i + 1)

abbrev AllFit : ℕ → List SimpleExtent → Type 0
AllFit alloc_unit es = All (Fits alloc_unit) es

module _ (alloc_unit : ℕ) where
  simple-Marked :
      (fmap : LogFmap) (left j : ℕ) (b : Build)
      → AllFit alloc_unit (simple_extents fmap left j)
      → Ready (length (simple_extents fmap left j)) b
      → Marked alloc_unit (simple_extents fmap left j) b (mark_simple alloc_unit fmap left j b)
  unfolding simple_extents mark_simple
  simple-Marked fmap zero j b h r = Marked-nil alloc_unit b r
  simple-Marked fmap (suc left) j b h r =
      let aligned : ((se fmap j).se_offset % alloc_unit == 0) ≡ true = ground (arith, h.0.whole) in
      rw aligned (
        Marked-cons alloc_unit (se fmap j) (simple_extents fmap left (j + 1)) b
          (mark_simple alloc_unit fmap left (j + 1)) h.0 r
          (λ b' r'. simple-Marked fmap left (j + 1) b' h.1 r'))

  strips-Marked :
      (fmap : LogFmap) (i left k : ℕ) (b : Build)
      → AllFit alloc_unit (strip_extents fmap i left k)
      → Ready (length (strip_extents fmap i left k)) b
      → Marked alloc_unit (strip_extents fmap i left k) b (mark_strips alloc_unit fmap i left k b)
  unfolding strip_extents mark_strips
  strips-Marked fmap i zero k b h r = Marked-nil alloc_unit b r
  strips-Marked fmap i (suc left) k b h r =
      Marked-cons alloc_unit (ie_strips fmap i k) (strip_extents fmap i left (k + 1)) b
        (mark_strips alloc_unit fmap i left (k + 1)) h.0 r
        (λ b' r'. strips-Marked fmap i left (k + 1) b' h.1 r')

  Ready-first : (m n : ℕ) (b : Build) → Ready (m + n) b → Ready m b
  Ready-first m n b r = record { bytes = r.bytes; sum = r.sum; errors = omega (arith, r.errors) }

  interleaved-Marked :
      (fmap : LogFmap) (left j : ℕ) (b : Build)
      → AllFit alloc_unit (interleaved_extents fmap left j)
      → Ready (length (interleaved_extents fmap left j)) b
      → Marked alloc_unit
          (interleaved_extents fmap left j)
          b
          (mark_interleaved alloc_unit fmap left j b)
  unfolding interleaved_extents mark_interleaved
  interleaved-Marked fmap zero j b h r = Marked-nil alloc_unit b r
  interleaved-Marked fmap (suc left) j b h r =
      let xs = strip_extents fmap (j + j) (ie_nstrips fmap (j + j)) 0 in
      let ys = interleaved_extents fmap left (j + 1) in
      let r2 : Ready (length xs + length ys) b = rw (← length-append xs ys) r in
      Marked-bind alloc_unit xs ys b
        (mark_strips alloc_unit fmap (j + j) (ie_nstrips fmap (j + j)) 0 b)
        (mark_interleaved alloc_unit fmap left (j + 1)) r2
        (strips-Marked fmap (j + j) (ie_nstrips fmap (j + j)) 0 b
          (All-append_left (Fits alloc_unit) xs ys h) (Ready-first (length xs) (length ys) b r2))
        (λ b' r'.
          interleaved-Marked fmap left (j + 1) b' (All-append_right (Fits alloc_unit) xs ys h) r')

  fmap-Marked :
      (fmap : LogFmap) (b : Build)
      → AllFit alloc_unit (fmap_extents fmap)
      → Ready (length (fmap_extents fmap)) b
      → Marked alloc_unit (fmap_extents fmap) b (mark_fmap alloc_unit fmap b)
  unfolding fmap_extents mark_fmap
  fmap-Marked fmap b = elim (Bool-cases (fmap.fmap_ext_type == ext_simple)) [
    | inl s ↦ rw s (λ h r. simple-Marked fmap (fmap_nextents fmap) 0 b h r)
    | inr s ↦ elim (Bool-cases (fmap.fmap_ext_type == ext_interleave)) [
      | inl i ↦ rw (s, i) (λ h r. interleaved-Marked fmap (fmap_niext fmap) 0 b h r)
      | inr i ↦ rw (s, i) (λ h r. Marked-nil alloc_unit b r)
    ]
  ]

  payload-Marked :
      (e : LogPayload) (b : Build)
      → AllFit alloc_unit (payload_extents e)
      → Ready (length (payload_extents e)) b
      → Marked alloc_unit (payload_extents e) b (mark_payload alloc_unit e b)
  unfolding payload_extents mark_payload
  payload-Marked (file fm) b h r =
      Marked-same alloc_unit (fmap_extents fm.fm_fmap) b _ _ refl refl
        (fmap-Marked fm.fm_fmap _ h (record { bytes = r.bytes; sum = r.sum; errors = r.errors }))
  payload-Marked (mkdir md) b h r =
      Marked-same alloc_unit [] b _ _ refl refl
        (Marked-nil alloc_unit _ (record { bytes = r.bytes; sum = r.sum; errors = r.errors }))
  payload-Marked (add_daxdev dd) b h r = Marked-nil alloc_unit b r
  payload-Marked (other t) b h r = Marked-nil alloc_unit b r

  module _ (sum : Checksum) where
    entry-Marked :
        (le : LogEntry) (i : ℕ) (b : Build)
        → let es =
            if famfs_validate_log_entry sum le le i == 0 then payload_extents le.payload else [] in
          AllFit alloc_unit es
          → Ready (length es) b
          → Marked alloc_unit es b (mark_entry sum alloc_unit le i b)
    unfolding mark_entry
    entry-Marked le i b = elim (Bool-cases (famfs_validate_log_entry sum le le i == 0)) [
      | inl good ↦ rw good (λ h r.
          Marked-same alloc_unit (payload_extents le.payload) b _ _ refl refl (
            payload-Marked le.payload _ h
              (record { bytes = r.bytes; sum = r.sum; errors = r.errors })))
      | inr bad ↦ rw bad (λ h r.
          Marked-same alloc_unit [] b _ _ refl refl
            (Marked-nil alloc_unit _ (record { bytes = r.bytes; sum = r.sum; errors = r.errors })))
    ]

    pub entries-Marked :
        (entries : ℕ → LogEntry) (left i : ℕ) (b : Build)
        → AllFit alloc_unit (log_extents sum entries left i)
        → Ready (length (log_extents sum entries left i)) b
        → Marked alloc_unit
            (log_extents sum entries left i)
            b
            (mark_entries sum alloc_unit entries left i b)
    unfolding log_extents mark_entries
    entries-Marked entries zero i b h r = Marked-nil alloc_unit b r
    entries-Marked entries (suc left) i b h r =
        let ys = log_extents sum entries left (i + 1) in
        let r2 = rw (length-append _ ys) at (r) in
        Marked-bind alloc_unit _ ys b (mark_entry sum alloc_unit (entries i) i b)
          (mark_entries sum alloc_unit entries left (i + 1)) r2
          (entry-Marked (entries i) i b (All-append_left (Fits alloc_unit) _ ys h)
            (Ready-first _ (length ys) b r2))
          (λ b' r'.
            entries-Marked entries left (i + 1) b' (All-append_right (Fits alloc_unit) _ ys h) r')
