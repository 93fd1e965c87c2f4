-- ===== src/Tests/Playing.antt =====
-- A log of one directory, played into the small file system of the session.
use famfs.Prelude.{
  ℕ, ◌<◌, ◌==◌, ◌≡◌, inl, inr, refl, Bool, true, false, ◌||◌, if◌then◌else◌, none, some, List, [],
  ◌∷◌, arith, Bool-cases,
}
use famfs.Prelude.Lists.{list_eq, list_eq_iff}
use famfs.Tests.Samples.{sums}
use famfs.Tests.Session.{has, slash_m, small}
use famfs.Meta.{LogEntry, LogPayload, file, mkdir, FamfsLog, no_stats, log_magic, le_bytes}
use famfs.Log.{
  famfs_gen_log_entry_crc, famfs_gen_log_header_crc, famfs_validate_log_header,
  famfs_validate_log_entry, entry_errors, path_is_relative, famfs_log_entry_md_path_is_relative,
}
use famfs.Super.{master}
use famfs.Files.Create.{famfs_dir_create}
use famfs.Host.Laws.{IsDirectory, Keeps, Keeps-refl, IsPlain}
use famfs.Replay.{
  Play, PlayArgs, errors, is_nosuper, dir_problems, existing_dir, made_dir, create_missing_dir,
  play_dir, play_entry, counted_entry, play_entries, play_result, __famfs_logplay,
}
use famfs.Replay.Twice.{CanonicalRun, play_twice}
use famfs.Replay.Entry.{Canonical}
use famfs.Host.{Posix, Stat, directory}

-- Here every path that exists is a directory.
abbrev dirs : Posix
dirs = record small {
  stat = λ s p. if has s p then some (record { st_kind = directory; st_size = 0 }) else none;
}

abbrev make_d : LogPayload
make_d = mkdir (record { md_uid = 0; md_gid = 0; md_mode = 0o755; md_relpath = b'd' ∷ [] })

abbrev signed : LogEntry
signed = record {
  seqnum = 0;
  payload = make_d;
  crc = famfs_gen_log_entry_crc sums (record { seqnum = 0; payload = make_d; crc = 0 });
}

-- The rest of a new log is zero.
abbrev blank : LogEntry
blank = record {
  seqnum = 0;
  payload = file (record {
    fm_size = 0;
    fm_flags = 0;
    fm_uid = 0;
    fm_gid = 0;
    fm_mode = 0;
    fm_relpath = [];
    fm_fmap = record { fmap_ext_type = 0; fmap_count = 0; words = λ a. 0 };
  });
  crc = 0;
}

abbrev unsealed : FamfsLog
unsealed = record {
  magic = log_magic;
  log_len = 0x800000;
  last_index = 15000;
  header_crc = 0;
  next_seqnum = 1;
  next_index = 1;
  entries = λ i. if i == 0 then signed else blank;
}

abbrev log : FamfsLog
log = record unsealed { header_crc = famfs_gen_log_header_crc sums unsealed }

abbrev args : PlayArgs
args = record { mpt = slash_m; dry_run = false; mock_path = false; role = master }

abbrev played : Play (List (List ℕ))
played = record {
  fs = (b'/' ∷ b'm' ∷ b'/' ∷ b'd' ∷ []) ∷ [];
  ls = record no_stats { n_entries = 1; d_logged = 1; d_created = 1 };
}

ran : __famfs_logplay dirs args sums log [] ≡ some (played, errors 0)
unfolding __famfs_logplay play_entries play_entry play_dir create_missing_dir made_dir existing_dir
    counted_entry play_result dir_problems is_nosuper famfs_dir_create path_is_relative
    famfs_log_entry_md_path_is_relative le_bytes famfs_validate_log_header famfs_gen_log_header_crc
    famfs_validate_log_entry entry_errors famfs_gen_log_entry_crc
ran = refl

not_found : {st : Stat} → none ≡ some st → ⊥
not_found e = cc

abbrev dir : Stat
dir = record { st_kind = directory; st_size = 0 }

has_found :
    (s : List (List ℕ)) (p : List ℕ) (st : Stat)
    → (if has s p then some dir else none) ≡ some st
    → has s p ≡ true
has_found s p st e = elim (Bool-cases (has s p)) [
  | inl yes_ ↦ yes_
  | inr no_ ↦ absurd (not_found (rw no_ at e))
]

found_in : (s : List (List ℕ)) (p : List ℕ) → has s p ≡ true → IsDirectory dirs s p
found_in s p h = record { found = dir; there = rw h refl; kind = refl }

or_true : (b : Bool) → (b || true) ≡ true
or_true true = refl
or_true false = refl

grown : (s : List (List ℕ)) (q : List ℕ) → Keeps dirs s (q ∷ s)
grown s q = record {
  paths = λ p h.
      let d = found_in (q ∷ s) p (rw (has_found s p h.found h.there) (or_true (list_eq q p))) in
      record { found = d.found; there = d.there };
  directories =
      λ p h. found_in (q ∷ s) p (rw (has_found s p h.found h.there) (or_true (list_eq q p)));
}

made : (s : List (List ℕ)) (p : List ℕ) → IsDirectory dirs (p ∷ s) p
made s p = found_in (p ∷ s) p (rw ((list_eq_iff p p).1 refl) refl)

dirs-IsPlain : IsPlain dirs
dirs-IsPlain = record {
  open_create_keeps = λ s path mode. grown s path;
  open_create_makes =
      λ s path mode d e. record { found = (made s path).found; there = (made s path).there };
  close_keeps = λ s d. Keeps-refl dirs s;
  fchown_keeps = λ s d uid gid. Keeps-refl dirs s;
  map_keeps = λ s d m. Keeps-refl dirs s;
  mkdir_keeps = λ s path mode. grown s path;
  mkdir_makes = λ s path mode e. made s path;
  chown_keeps = λ s path uid gid. Keeps-refl dirs s;
}

d-CanonicalRun : CanonicalRun dirs args sums log.entries 1 0 (record { fs = []; ls = no_stats })
unfolding CanonicalRun
d-CanonicalRun = (refl, λ p1 run. tt)

d-settled : (j : ℕ) → j < 1 → Canonical dirs args played.fs (log.entries j).payload
d-settled j h = let first : j ≡ 0 = omega (arith, h) in rw first refl

play_twice_example :
    (p2 : Play (List (List ℕ))) × (__famfs_logplay dirs args sums log (played.fs)
      ≡ some (p2, errors 0))
    × (p2.fs ≡ played.fs)
    × (p2.ls.f_created ≡ 0)
    × (p2.ls.d_created ≡ 0)
play_twice_example =
    play_twice dirs args sums log dirs-IsPlain [] played 0 refl d-CanonicalRun d-settled ran refl
