-- ===== src/Meta/View.antt =====
-- What the metadata of a file says, apart from how it lies in memory: the extents that the count
-- covers, of the arm that the type selects. The words beyond them are forgotten.
use famfs.Prelude.{ℕ, zero, suc, ◌+◌, List, [], ◌∷◌, ◌==◌, if◌then◌else◌}
use famfs.Meta.{SimpleExtent, LogFmap, LogFileMeta, ext_simple, ext_interleave}
use famfs.Meta.Fmap.{fmap_nextents, fmap_niext, se, ie_nstrips, ie_chunk_size, ie_strips}

pub record StripeView : Type 0 where
  pub stripe_chunk_size : ℕ
  pub stripe_strips : List SimpleExtent

pub data MapView : Type 0 where
  simple_map : List SimpleExtent → MapView
  striped_map : List StripeView → MapView
  other_map : ℕ → MapView

pub record FileView : Type 0 where
  pub file_size : ℕ
  pub file_flags : ℕ
  pub file_uid : ℕ
  pub file_gid : ℕ
  pub file_mode : ℕ
  pub file_path : List ℕ
  pub file_map : MapView

-- The `left` extents from i on.
unfoldable pub extent_list : (ℕ → SimpleExtent) → ℕ → ℕ → List SimpleExtent
extent_list f zero i = []
extent_list f (suc left) i = f i ∷ extent_list f left (i + 1)

unfoldable pub stripe_list : LogFmap → ℕ → ℕ → List StripeView
stripe_list fm zero i = []
stripe_list fm (suc left) i =
    record {
      stripe_chunk_size = ie_chunk_size fm i;
      stripe_strips = extent_list (ie_strips fm i) (ie_nstrips fm i) 0;
    }
    ∷ stripe_list fm left (i + 1)

unfoldable pub map_view : LogFmap → MapView
map_view fm =
    if fm.fmap_ext_type == ext_simple
    then simple_map (extent_list (se fm) (fmap_nextents fm) 0)
    else if fm.fmap_ext_type == ext_interleave
    then striped_map (stripe_list fm (fmap_niext fm) 0)
    else other_map fm.fmap_ext_type

unfoldable pub file_view : LogFileMeta → FileView
file_view fm = record {
  file_size = fm.fm_size;
  file_flags = fm.fm_flags;
  file_uid = fm.fm_uid;
  file_gid = fm.fm_gid;
  file_mode = fm.fm_mode;
  file_path = fm.fm_relpath;
  file_map = map_view fm.fm_fmap;
}
