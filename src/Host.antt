-- ===== src/Host.antt =====
-- What the code asks of the operating system: the calls of POSIX on paths and descriptors, and the
-- map ioctl of the famfs kernel module. Nothing of it is part of this repository.
pub mod Laws
use famfs.Prelude.{ℕ, Bool, Option, List}
use famfs.Meta.{SimpleExtent}

pub data FileKind : Type 0 where
  directory regular special : FileKind

pub record Stat : Type 0 where
  pub st_kind : FileKind
  pub st_size : ℕ

-- `struct famfs_ioc_interleaved_ext`, less the pointer to the strips
pub record IocInterleaved : Type 0 where
  pub ioc_nstrips : ℕ
  pub ioc_chunk_size : ℕ
  pub ioc_nbytes : ℕ

-- `struct famfs_ioc_fmap` with the arrays that it points to; every interleaved extent points to the
-- same strips.
pub record IocFmap : Type 0 where
  pub fioc_file_size : ℕ
  pub fioc_ext_type : ℕ
  pub fioc_nextents : ℕ
  pub kse : List SimpleExtent
  pub kie : List IocInterleaved

-- An error is `none` or `false`. A call that fails may change the state.
pub record Posix : Type 1 where
  pub State : Type 0
  pub stat : State → List ℕ → Option Stat
  pub open_create : State → List ℕ → ℕ → State × Option ℕ
  pub open_rw : State → List ℕ → State × Option ℕ
  pub is_famfs_v1 : State → ℕ → Bool
  pub close : State → ℕ → State
  pub unlink : State → List ℕ → State
  pub fchown : State → ℕ → ℕ → ℕ → State
  pub map_create_v2 : State → ℕ → IocFmap → State × Bool
  pub mkdir : State → List ℕ → ℕ → State × Bool
  pub chown : State → List ℕ → ℕ → ℕ → State × Bool
  pub realpath : State → List ℕ → Option (List ℕ)
  -- What `realpath` leaves in its buffer, whether it succeeds or fails.
  pub realpath_buf : State → List ℕ → List ℕ
  pub dirname : List ℕ → List ℕ
  pub basename : List ℕ → List ℕ
