-- ===== src/Tests/Session.antt =====
-- A session on a small file system in which every path is a file below /m, or a directory that was made.
use famfs.Prelude.{
  ℕ, ◌^◌, ◌≤◌, ◌≡◌, ◌≢◌, ◌⊎◌, ◌==◌, refl, Bool, true, false, ◌||◌, leb, if◌then◌else◌, Option, none,
  some, List, [], ◌∷◌, ◌++◌, arith,
}
use famfs.Prelude.Lists.{length, list_eq}
use famfs.Files.Mkfile.{full_target}
use famfs.Files.Mkfile.{alloc_file}
use famfs.Alloc.Build.{put_sb_log_into_bitmap}
use famfs.Alloc.Extent.{set_extent_in_bitmap}
use famfs.Alloc.Build.{mark_entries}
use famfs.Alloc.Choice.{choose_alloc}
use famfs.Alloc.File.{famfs_file_alloc_contiguous}
use famfs.Alloc.Contiguous.{bitmap_alloc_contiguous}
use famfs.Alloc.Contiguous.{scan}
use famfs.Alloc.Extent.{mark_pages}
use famfs.Alloc.Extent.{mark_page}
use famfs.Bitmap.{mu_bitmap_test_and_set}
use famfs.Alloc.Contiguous.{range_free}
use famfs.Files.Mkfile.{place_file}
use famfs.Files.Mkfile.{create_file}
use famfs.Files.Path.{starts_with}
use famfs.Files.Path.{from_index}
use famfs.Files.Mkfile.{map_file}
use famfs.Files.Create.{famfs_file_create_stub}
use famfs.Files.Create.{stub_opened}
use famfs.Files.Create.{famfs_v2_set_file_map}
use famfs.Files.Mkfile.{log_file}
use famfs.Log.{famfs_log_file_creation}
use famfs.Log.{famfs_log_full}
use famfs.Files.Mkfile.{rc_or}
use famfs.Log.{famfs_append_log}
use famfs.Files.Mkfile.{after_map}
use famfs.Files.Create.{map_file_as}
use famfs.Files.Create.{ioc_fmap}
use famfs.Files.Mkfile.{is_dir}
use famfs.Alloc.Choice.{famfs_file_alloc}
use famfs.Alloc.Choice.{ensure_bitmap}
use famfs.Bitmap.{mu_bitmap_test}
use famfs.Alloc.File.{simple_fmap}
use famfs.Log.{no_leading_slash}
use famfs.Tests.Samples.{sums}
use famfs.Meta.{alloc_unit_2m}
use famfs.Log.Inv.{IsValid}
use famfs.Super.{new_log}
use famfs.Alloc.Extent.{pages}
use famfs.Alloc.Param.{alloc_is_interleaved}
use famfs.Alloc.Build.{Build, famfs_build_bitmap}
use famfs.Alloc.Build.Owners.{owners}
use famfs.Alloc.Build.Laws.{all_extents}
use famfs.Host.{Posix, directory, regular}
use famfs.Files.Path.{null, pointer, famfs_relpath_from_fullpath}
use famfs.Files.Path.Laws.{relpath_lem}
use famfs.Files.Mkfile.{Session, Setup, MkfileArgs, __famfs_mkfile}
use famfs.Files.Mkdir.{DirArgs}
use famfs.Files.Mkdir.Laws.{only_slashes}
use famfs.Files.Create.{fd}
use famfs.Files.Session.{Step, IsModest, made_file, start, later}
use famfs.Files.Session.Space.{IsSized}
use famfs.Files.Session.Laws.{IsConsistent, Step-IsConsistent}
use famfs.Files.Session.Safety.{new_log-IsSparse, no_page_has_two_owners}

abbrev pub has : List (List ℕ) → List ℕ → Bool
has [] p = false
has (q ∷ qs) p = list_eq q p || has qs p

abbrev pub slash_m : List ℕ
slash_m = b'/' ∷ b'm' ∷ []

-- The state is the list of the files.
abbrev pub small : Posix
small = record {
  State = List (List ℕ);
  stat = λ s p.
      if leb (length p) 2
      then some (record { st_kind = directory; st_size = 0 })
      else if has s p
      then some (record { st_kind = regular; st_size = 0 })
      else none;
  open_create = λ s p mode. (p ∷ s, some 5);
  open_rw = λ s p. (s, some 5);
  is_famfs_v1 = λ s d. true;
  close = λ s d. s;
  unlink = λ s p. s;
  fchown = λ s d uid gid. s;
  map_create_v2 = λ s d m. (s, true);
  mkdir = λ s p mode. (p ∷ s, true);
  chown = λ s p uid gid. (s, true);
  realpath = λ s p. if leb (length p) 2 then some p else if has s p then some p else none;
  realpath_buf = λ s p. p;
  dirname = λ p. slash_m;
  basename = λ p. p;
}

abbrev env : Setup
env = record {
  mpt = slash_m;
  cwd = b'/' ∷ [];
  mock_kmod = false;
  mock_stripe = false;
  sum = sums;
  rand = λ i. i;
}

abbrev fresh : Session (List (List ℕ))
fresh = record {
  fs = [];
  logp = new_log sums 0x800000;
  lp = record {
    devsize = 2 ^ 25;
    bitmap = λ _. 0;
    nbits = 0;
    alloc_unit = alloc_unit_2m;
    cur_pos = 0;
    interleave_param = record { nbuckets = 0; nstrips = 0; chunk_size = 0 };
  };
  built = false;
}

abbrev new_file : MkfileArgs
new_file = record {
  filename = b'/' ∷ b'm' ∷ b'/' ∷ b'f' ∷ [];
  mode = 0o644;
  uid = 0;
  gid = 0;
  size = 5_000_000;
  open_existing = false;
}

-- What a call leaves, if it returns.
abbrev after : {S D : Type 0} → Option (S × D) → S → S
after none c = c
after (some (c', d)) c = c'

abbrev with_file : Session (List (List ℕ))
with_file = after (__famfs_mkfile small env new_file fresh) fresh

abbrev dir_args : DirArgs
dir_args = record { mode = 0o755; uid = 0; gid = 0 }

fresh-IsSized : IsSized (fresh.lp)
fresh-IsSized = record { unit = refl; some_device = omega arith; devsize_word = omega arith }

new_file-IsModest : IsModest (fresh.lp) 5_000_000
unfolding alloc_is_interleaved
new_file-IsModest = record { size_word = omega arith; stripable = λ e. absurd (cc) }

ran_file : (d : ℕ) × (__famfs_mkfile small env new_file fresh ≡ some (with_file, fd d))
unfolding __famfs_mkfile full_target alloc_file famfs_build_bitmap put_sb_log_into_bitmap
    set_extent_in_bitmap mark_entries new_log choose_alloc alloc_is_interleaved
    famfs_file_alloc_contiguous bitmap_alloc_contiguous scan mark_pages mark_page
    mu_bitmap_test_and_set range_free place_file create_file famfs_relpath_from_fullpath starts_with
    from_index map_file famfs_file_create_stub stub_opened famfs_v2_set_file_map log_file
    famfs_log_file_creation famfs_log_full rc_or famfs_append_log after_map map_file_as ioc_fmap
    is_dir famfs_file_alloc ensure_bitmap mu_bitmap_test simple_fmap no_leading_slash
ran_file = (5, refl)

abbrev made : Step small env fresh with_file
made = made_file new_file fresh with_file (fd ran_file.0) ran_file.1

no_page_has_two_owners_example :
    IsValid sums (with_file.logp)
    × ((j : ℕ) → owners alloc_unit_2m (all_extents sums (with_file.logp)) j ≤ 1)
    × ((devsize : ℕ)
        → (b : Build) × (famfs_build_bitmap sums (with_file.logp) alloc_unit_2m devsize
            ≡ some (b, pages alloc_unit_2m devsize))
          × (b.errors ≡ 0))
no_page_has_two_owners_example =
    no_page_has_two_owners small env fresh with_file 0x800000 refl (omega arith) (omega arith)
      fresh-IsSized refl (later fresh with_file start made) (tt, new_file-IsModest)

fresh-IsConsistent : IsConsistent sums (List (List ℕ)) fresh
fresh-IsConsistent = record {
  sparse = new_log-IsSparse sums 0x800000 (omega arith) (omega arith);
  sized = fresh-IsSized;
  covered = λ b. absurd (cc);
}

step-IsConsistent_example : IsConsistent sums (List (List ℕ)) with_file
step-IsConsistent_example =
    Step-IsConsistent small env fresh with_file fresh-IsConsistent made new_file-IsModest

has_slash : List ℕ → Bool
has_slash [] = false
has_slash (c ∷ path) = c == b'/' || has_slash path

-- What stands before the last slash
up_to_slash : List ℕ → List ℕ
up_to_slash [] = []
up_to_slash (c ∷ path) = if has_slash path then c ∷ up_to_slash path else []

-- The directory of an absolute path that does not end in a slash
dir_name : List ℕ → List ℕ
dir_name [] = b'/' ∷ []
dir_name (c ∷ path) = b'/' ∷ up_to_slash path

-- Only the root exists.
abbrev bare : Posix
bare = record small {
  dirname = dir_name;
  stat = λ s p. if only_slashes p then some (record { st_kind = directory; st_size = 0 }) else none;
}

abbrev deep : List ℕ
deep = b'/' ∷ b'a' ∷ b'/' ∷ b'b' ∷ []

abbrev inside_mx : List ℕ
inside_mx = b'/' ∷ b'm' ∷ b'x' ∷ b'/' ∷ b'f' ∷ []

-- /m is taken as the mount point of /mx/f.
relpath_lem_example :
    ((c : ℕ) × (rel : List ℕ) × (inside_mx ≡ slash_m ++ c ∷ rel)
      × (famfs_relpath_from_fullpath slash_m inside_mx ≡ pointer (some rel)))
    ⊎ ((inside_mx ≡ slash_m) × (famfs_relpath_from_fullpath slash_m inside_mx ≡ pointer none))
    ⊎ (((t : List ℕ) → inside_mx ≢ slash_m ++ t)
        × (famfs_relpath_from_fullpath slash_m inside_mx ≡ null))
relpath_lem_example = relpath_lem slash_m inside_mx
