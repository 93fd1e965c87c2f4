-- ===== src/Yaml/RoundTrip/Printable.antt =====
-- The document of a file is printable text.
use famfs.Prelude.{ℕ, zero, suc, ◌+◌, refl, ◌==◌, Bool-cases, inl, inr}
use famfs.Meta.{SimpleExtent, LogFmap, LogFileMeta, ext_simple, ext_interleave}
use famfs.Meta.Fmap.{fmap_nextents, fmap_niext, se, ie_nstrips, ie_chunk_size, ie_strips}
use famfs.Yaml.Numbers.Printable.{hex-IsPrintable, octal-IsPrintable, signed-IsPrintable}
use famfs.Yaml.Tree.{is_printable, IsPrintable, IsText, AreTexts, ArePairs}
use famfs.Yaml.Emit.{loop_bound}
use famfs.Yaml.Emit.Document.{extent_items, interleaved_items, list_pairs, file_node}

extents_printable : (f : ℕ → SimpleExtent) (left i : ℕ) → AreTexts (extent_items f left i)
unfolding extent_items AreTexts IsText ArePairs is_printable
extents_printable f zero i = tt
extents_printable f (suc left) i = (
  (
    refl,
    signed-IsPrintable 64 (f i).se_devindex,
    (refl, hex-IsPrintable (f i).se_offset, (refl, hex-IsPrintable (f i).se_len, tt)),
  ),
  extents_printable f left (i + 1),
)

interleaved_printable : (fm : LogFmap) (left i : ℕ) → AreTexts (interleaved_items fm left i)
unfolding interleaved_items AreTexts IsText ArePairs is_printable
interleaved_printable fm zero i = tt
interleaved_printable fm (suc left) i = (
  (
    refl,
    signed-IsPrintable 64 (ie_nstrips fm i),
    (
      refl,
      hex-IsPrintable (ie_chunk_size fm i),
      (refl, extents_printable (ie_strips fm i) (loop_bound (ie_nstrips fm i)) 0, tt),
    ),
  ),
  interleaved_printable fm left (i + 1),
)

list_printable : (fm : LogFmap) → ArePairs (list_pairs fm)
unfolding list_pairs IsText ArePairs is_printable
list_printable fm = elim (Bool-cases (fm.fmap_ext_type == ext_simple)) [
  | inl y ↦ rw y (refl, extents_printable (se fm) (loop_bound (fmap_nextents fm)) 0, tt)
  | inr other ↦ elim (Bool-cases (fm.fmap_ext_type == ext_interleave)) [
    | inl y ↦ rw (other, y) (refl, interleaved_printable fm (fmap_niext fm) 0, tt)
    | inr neither ↦ rw (other, neither) tt
  ]
]

pub file_printable : (fm : LogFileMeta) → IsPrintable fm.fm_relpath → IsText (file_node fm)
unfolding file_node IsText ArePairs is_printable
file_printable fm path = (
  refl,
  (
    refl,
    path,
    (
      refl,
      signed-IsPrintable 64 fm.fm_size,
      (
        refl,
        signed-IsPrintable 32 fm.fm_flags,
        (
          refl,
          octal-IsPrintable fm.fm_mode,
          (
            refl,
            signed-IsPrintable 32 fm.fm_uid,
            (
              refl,
              signed-IsPrintable 32 fm.fm_gid,
              (refl, signed-IsPrintable 32 (fmap_nextents fm.fm_fmap), list_printable fm.fm_fmap),
            ),
          ),
        ),
      ),
    ),
  ),
  tt,
)
