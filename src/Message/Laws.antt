-- ===== src/Message/Laws.antt =====
-- The message of a file is its map, if that fits.
use native.Mathlib.Nat.{mod-le}
use famfs.Prelude.{
  ℕ, ◌%◌, ◌+◌, ◌*◌, ◌^◌, ◌≤◌, ◌<◌, ◌≡◌, inl, inr, refl, ap, true, false, none, some, [], ◌∷◌, ◌==◌,
  ltb, arith, Bool-cases, if◌then◌else◌, u32,
}
use famfs.Meta.{SimpleExtent, LogFmap, LogFileMeta, ext_simple, ext_interleave}
use famfs.Meta.Fmap.{fmap_nextents, fmap_niext, se, ie_strips}
use famfs.Meta.Fmap
use famfs.Yaml.RoundTrip.{IsMap, simple, striped}
use famfs.Message.{
  fmap_version, file_type, ext_type, file_size, nextents, se_devindex, se_offset, se_len,
  ie_nstrips, ie_chunk_size, ie_nbytes, FuseLayout, strip_size, MsgStrip, simple_body, striped_body,
  FmapMessage, advance, msg_iext, listing, stored, ext_of, nstrips_of, message, header_count,
  msg_iexts, simple_message, striped_message, famfs_log_file_meta_to_msg,
}

-- What the message of a map takes, and what it says
abbrev pub message_size : FuseLayout → LogFmap → ℕ
message_size z fm =
    if fm.fmap_ext_type == ext_simple
    then z.header_size + fmap_nextents fm * z.ext_size
    else z.header_size + z.iext_size + Fmap.ie_nstrips fm 0 % 2 ^ z.width ie_nstrips * strip_size

abbrev pub simple_ext : FuseLayout → SimpleExtent → SimpleExtent
simple_ext z e = record {
  se_devindex = e.se_devindex % 2 ^ z.width se_devindex;
  se_offset = e.se_offset % 2 ^ z.width se_offset;
  se_len = e.se_len % 2 ^ z.width se_len;
}

abbrev pub strip : SimpleExtent → MsgStrip
strip e = record {
  struct_tag = 0;
  devindex16 = e.se_devindex % 2 ^ 16;
  reserved = 0;
  strip_offset = e.se_offset;
  strip_len = e.se_len;
}

abbrev pub nstrips : FuseLayout → LogFmap → ℕ
nstrips z fm = Fmap.ie_nstrips fm 0 % 2 ^ z.width ie_nstrips

-- What the map of a file says in the fields of the kernel's structures
abbrev pub message_of : FuseLayout → ℕ → LogFileMeta → FmapMessage
message_of z type fm =
    let m = fm.fm_fmap in
    let simple_map = m.fmap_ext_type == ext_simple in
    let count = if simple_map then fmap_nextents m else fmap_niext m in
    record {
      msg_version = z.version % 2 ^ z.width fmap_version;
      msg_file_type = type % 2 ^ z.width file_type;
      msg_ext_type = m.fmap_ext_type % 2 ^ z.width ext_type;
      msg_file_size = fm.fm_size % 2 ^ z.width file_size;
      msg_nextents = count % 2 ^ z.width nextents;
      body =
          if simple_map
          then simple_body
              (listing (λ k. simple_ext z (se m k)) (fmap_nextents m % 2 ^ z.width nextents) 0)
          else striped_body (
              record {
                msg_nstrips = nstrips z m;
                msg_chunk_size = Fmap.ie_chunk_size m 0 % 2 ^ z.width ie_chunk_size;
                msg_nbytes = fm.fm_size % 2 ^ z.width ie_nbytes;
                msg_strips = listing (λ k. strip (ie_strips m 0 k)) (nstrips z m) 0;
              }
              ∷ []);
    }

simple_small : (h e n : ℕ) → h < 2 ^ 16 → e < 2 ^ 16 → n ≤ 16 → h + n * e < 2 ^ 32
simple_small h e n hb eb nb = let product : n * e ≤ 16 * e = grind arith in omega arith

module _ (z : FuseLayout) (msg_size : ℕ) (type : ℕ) (fm : LogFileMeta) where
  advance_fits :
      (cursor n : ℕ)
      → cursor + n < 2 ^ 32
      → cursor + n ≤ msg_size
      → advance z msg_size cursor n ≡ some (cursor + n)
  unfolding advance
  advance_fits cursor n small fits =
      let word : u32 (cursor + n) ≡ cursor + n = omega arith in rw word ground arith

  advance_not :
      (cursor n : ℕ)
      → cursor + n < 2 ^ 32
      → msg_size < cursor + n
      → advance z msg_size cursor n ≡ none
  unfolding advance
  advance_not cursor n small long =
      let word : u32 (cursor + n) ≡ cursor + n = omega arith in rw word ground arith

  -- The type is not cut in the header.
  abbrev Uncut : Type 0
  Uncut = stored z msg_size ext_type fm.fm_fmap.fmap_ext_type ≡ fm.fm_fmap.fmap_ext_type

  abbrev simple_size : ℕ
  simple_size = z.header_size + fmap_nextents fm.fm_fmap * z.ext_size

  simple_fits :
      fm.fm_fmap.fmap_ext_type ≡ ext_simple
      → Uncut
      → simple_size < 2 ^ 32
      → famfs_log_file_meta_to_msg z msg_size type fm ≡ (
          if ltb msg_size simple_size
          then none
          else some (
            simple_size,
            message z msg_size type fm (fmap_nextents fm.fm_fmap) (
                simple_body (
                  listing
                    (λ k. ext_of z msg_size (se fm.fm_fmap k))
                    (stored z msg_size nextents (fmap_nextents fm.fm_fmap))
                    0)),
          ))
  unfolding famfs_log_file_meta_to_msg simple_message header_count
  simple_fits t uncut small =
      let simple : (fm.fm_fmap.fmap_ext_type == ext_simple) ≡ true = ground arith in
      let n = fmap_nextents fm.fm_fmap * z.ext_size in
      elim (Bool-cases (ltb msg_size simple_size)) [
        | inl long ↦ elim (Bool-cases (ltb msg_size z.header_size)) [
          | inl early ↦ rw (long, early) refl
          | inr later ↦
              rw (long, later, uncut, simple, advance_not z.header_size n small (ground arith)) refl
        ]
        | inr fits ↦
            let early : ltb msg_size z.header_size ≡ false = ground arith in
            rw (fits, early, uncut, simple, advance_fits z.header_size n small (ground arith)) refl
      ]

  abbrev striped_size : ℕ
  striped_size = z.header_size + z.iext_size + nstrips_of z msg_size fm 0 * strip_size

  one_iext :
      striped_size < 2 ^ 32
      → striped_size ≤ msg_size
      → msg_iexts z msg_size fm 1 0 z.header_size
        ≡ some (striped_size, msg_iext z msg_size fm 0 ∷ [])
  unfolding msg_iexts
  one_iext small fits =
      let first = advance_fits z.header_size z.iext_size (omega arith) (omega arith) in
      let second =
        advance_fits (z.header_size + z.iext_size) (nstrips_of z msg_size fm 0 * strip_size) small
          fits in
      rw (first, second) refl

  no_iext :
      striped_size < 2 ^ 32
      → msg_size < striped_size
      → msg_iexts z msg_size fm 1 0 z.header_size ≡ none
  unfolding msg_iexts
  no_iext small long = elim (Bool-cases (ltb msg_size (z.header_size + z.iext_size))) [
    | inl early ↦ rw (advance_not z.header_size z.iext_size (omega arith) (ground arith)) refl
    | inr later ↦
        let first = advance_fits z.header_size z.iext_size (omega arith) (ground arith) in
        let second =
          advance_not (z.header_size + z.iext_size) (nstrips_of z msg_size fm 0 * strip_size) small
            long in
        rw (first, second) refl
  ]

  striped_fits :
      fm.fm_fmap.fmap_ext_type ≡ ext_interleave
      → Uncut
      → fmap_niext fm.fm_fmap ≡ 1
      → striped_size < 2 ^ 32
      → famfs_log_file_meta_to_msg z msg_size type fm ≡ (
          if ltb msg_size striped_size
          then none
          else some (
            striped_size,
            message z msg_size type fm
                (fmap_niext fm.fm_fmap)
                (striped_body (msg_iext z msg_size fm 0 ∷ [])),
          ))
  unfolding famfs_log_file_meta_to_msg striped_message header_count
  striped_fits t uncut one small =
      let other : (fm.fm_fmap.fmap_ext_type == ext_simple) ≡ false = ground arith in
      let striped : (fm.fm_fmap.fmap_ext_type == ext_interleave) ≡ true = ground arith in
      let count = ap (λ n. msg_iexts z msg_size fm n 0 z.header_size) one in
      elim (Bool-cases (ltb msg_size striped_size)) [
        | inl long ↦ elim (Bool-cases (ltb msg_size z.header_size)) [
          | inl early ↦ rw (long, early) refl
          | inr later ↦
              rw (long, later, uncut, other, striped, count, no_iext small (ground arith)) refl
        ]
        | inr fits ↦
            let early : ltb msg_size z.header_size ≡ false = ground arith in
            rw (fits, early, uncut, other, striped, count, one_iext small (ground arith)) refl
      ]

-- The message of a map as the log and the allocator make it has a header with the version, the type
-- and the size of the file, the type of the map and the count of its extents, and behind it the map's
-- extents or strips, and has just the size of its parts; if that is more than the caller has room
-- for, the code fails. Each field holds what its width leaves of the value; the type of the map is
-- not cut. The sizes of the kernel's structures are below 2 ^ 16.
pub message_lem :
    (z : FuseLayout)
    → (msg_size type : ℕ) → (fm : LogFileMeta) → IsMap fm.fm_fmap
    → fm.fm_fmap.fmap_ext_type % 2 ^ z.width ext_type ≡ fm.fm_fmap.fmap_ext_type
    → z.header_size < 2 ^ 16
    → z.ext_size < 2 ^ 16
    → z.iext_size < 2 ^ 16
    → famfs_log_file_meta_to_msg z msg_size type fm ≡ (
        if ltb msg_size (message_size z fm.fm_fmap)
        then none
        else some (message_size z fm.fm_fmap, message_of z type fm))
unfolding msg_iext message stored ext_of nstrips_of
message_lem z msg_size type fm (simple t least most fit) uncut h e i =
    let is_simple : (fm.fm_fmap.fmap_ext_type == ext_simple) ≡ true = ground arith in
    rw (is_simple) (
      simple_fits z msg_size type fm t uncut
        (simple_small z.header_size z.ext_size (fmap_nextents fm.fm_fmap) h e most))
message_lem z msg_size type fm (striped t one least most chunk fit) uncut h e i =
    let other : (fm.fm_fmap.fmap_ext_type == ext_simple) ≡ false = ground arith in
    let cut = mod-le (Fmap.ie_nstrips fm.fm_fmap 0) (2 ^ z.width ie_nstrips) in
    rw (other) (striped_fits z msg_size type fm t uncut one (omega (arith, cut, most, h, i)))
