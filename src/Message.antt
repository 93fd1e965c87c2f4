-- ===== src/Message.antt =====
-- `famfs_log_file_meta_to_msg` of src/famfs_fmap.c: the map of a file as the message that the fuse
-- daemon gives the kernel. The structures of the message belong to the kernel's header, so their
-- sizes and the widths of their fields are arguments; only a strip is written through a structure of
-- this repository, `struct fmap_simple_ext` of src/famfs_fmap.h, of 24 bytes. What the function
-- prints is left out.
pub mod Laws
use famfs.Prelude.{
  ℕ, zero, suc, ◌+◌, ◌*◌, ◌%◌, ◌^◌, Bool, true, false, Option, none, some, ◌>>=◌, List, [], ◌∷◌,
  ◌==◌, ltb, if◌then◌else◌, u32,
}
use famfs.Meta.{SimpleExtent, LogFmap, LogFileMeta, ext_simple, ext_interleave}
use famfs.Meta.Fmap.{fmap_nextents, fmap_niext, se, ie_strips}
use famfs.Meta.Fmap

-- The fields of the header, of a simple extent and of an interleaved extent of the kernel
pub data FuseField : Type 0 where
  fmap_version file_type ext_type file_size nextents : FuseField
  se_devindex se_offset se_len : FuseField
  ie_nstrips ie_chunk_size ie_nbytes : FuseField

-- `sizeof` of the header, of a simple extent and of an interleaved extent, the bits of the fields, and
-- FAMFS_FMAP_VERSION
pub record FuseLayout : Type 0 where
  pub header_size : ℕ
  pub ext_size : ℕ
  pub iext_size : ℕ
  pub width : FuseField → ℕ
  pub version : ℕ

-- `sizeof(struct fmap_simple_ext)`
abbrev pub strip_size : ℕ
strip_size = 24

-- `struct fmap_simple_ext`, with the tag and the reserved word that are cleared
pub record MsgStrip : Type 0 where
  pub struct_tag : ℕ
  pub devindex16 : ℕ
  pub reserved : ℕ
  pub strip_offset : ℕ
  pub strip_len : ℕ

pub record MsgIext : Type 0 where
  pub msg_nstrips : ℕ
  pub msg_chunk_size : ℕ
  pub msg_nbytes : ℕ
  pub msg_strips : List MsgStrip

pub data MsgBody : Type 0 where
  simple_body : List SimpleExtent → MsgBody
  striped_body : List MsgIext → MsgBody

-- The header, and what follows it
pub record FmapMessage : Type 0 where
  pub msg_version : ℕ
  pub msg_file_type : ℕ
  pub msg_ext_type : ℕ
  pub msg_file_size : ℕ
  pub msg_nextents : ℕ
  pub body : MsgBody

-- The device index of a strip has 16 bits.
abbrev pub strip_of : SimpleExtent → MsgStrip
strip_of e = record {
  struct_tag = 0;
  devindex16 = e.se_devindex % 2 ^ 16;
  reserved = 0;
  strip_offset = e.se_offset;
  strip_len = e.se_len;
}

-- The `left` elements of an array from i on
unfoldable pub listing : {A : Type 0} → (ℕ → A) → ℕ → ℕ → List A
listing f zero i = []
listing f (suc left) i = f i ∷ listing f left (i + 1)

module _ (z : FuseLayout) (msg_size : ℕ) where
  -- What a field of the kernel's structures holds after a store
  unfoldable pub stored : FuseField → ℕ → ℕ
  stored f n = n % 2 ^ z.width f

  unfoldable pub ext_of : SimpleExtent → SimpleExtent
  ext_of e = record {
    se_devindex = stored se_devindex e.se_devindex;
    se_offset = stored se_offset e.se_offset;
    se_len = stored se_len e.se_len;
  }

  unfoldable pub nstrips_of : LogFileMeta → ℕ → ℕ
  nstrips_of fm i = stored ie_nstrips (Fmap.ie_nstrips fm.fm_fmap i)

  -- The header, around a body
  unfoldable pub message : ℕ → LogFileMeta → ℕ → MsgBody → FmapMessage
  message type fm n b = record {
    msg_version = stored fmap_version z.version;
    msg_file_type = stored file_type type;
    msg_ext_type = stored ext_type fm.fm_fmap.fmap_ext_type;
    msg_file_size = stored file_size fm.fm_size;
    msg_nextents = stored nextents n;
    body = b;
  }

  -- The cursor moved on, if it is still within the message
  unfoldable pub advance : ℕ → ℕ → Option ℕ
  advance cursor n = let c = u32 (cursor + n) in if ltb msg_size c then none else some c

  unfoldable pub msg_iext : LogFileMeta → ℕ → MsgIext
  msg_iext fm i = record {
    msg_nstrips = nstrips_of fm i;
    msg_chunk_size = stored ie_chunk_size (Fmap.ie_chunk_size fm.fm_fmap i);
    msg_nbytes = stored ie_nbytes fm.fm_size;
    msg_strips = listing (λ k. strip_of (ie_strips fm.fm_fmap i k)) (nstrips_of fm i) 0;
  }

  -- The loop over the interleaved extents, with `left` of them from i on. A map has room for one;
  -- for a second one the code would clear the first, since its pointer is not moved.
  unfoldable pub msg_iexts : LogFileMeta → ℕ → ℕ → ℕ → Option (ℕ × List MsgIext)
  msg_iexts fm zero i cursor = some (cursor, [])
  msg_iexts fm (suc left) i cursor = do
    c1 ← advance cursor z.iext_size
    c2 ← advance c1 (nstrips_of fm i * strip_size)
    (c, more) ← msg_iexts fm left (i + 1) c2
    some (c, msg_iext fm i ∷ more)

  -- The loop over the simple extents is bounded by the field of the header.
  unfoldable pub simple_message : ℕ → LogFileMeta → Option (ℕ × FmapMessage)
  simple_message type fm =
      let n = fmap_nextents fm.fm_fmap in
      do
        c ← advance z.header_size (n * z.ext_size)
        some (
          c,
          message type fm n
              (simple_body (listing (λ k. ext_of (se fm.fm_fmap k)) (stored nextents n) 0)),
        )

  unfoldable pub striped_message : ℕ → LogFileMeta → ℕ → Option (ℕ × FmapMessage)
  striped_message type fm n = do
    (c, iexts) ← msg_iexts fm (fmap_niext fm.fm_fmap) 0 z.header_size
    some (c, message type fm n (striped_body iexts))

  -- The first switch, on the field of the header: its count of extents
  unfoldable pub header_count : LogFmap → Option ℕ
  header_count fm =
      let t = stored ext_type fm.fmap_ext_type in
      if t == ext_simple
      then some (fmap_nextents fm)
      else if t == ext_interleave
      then some (fmap_niext fm)
      else none

  -- The size of the message with it, or `none` for -EINVAL.
  unfoldable pub famfs_log_file_meta_to_msg : ℕ → LogFileMeta → Option (ℕ × FmapMessage)
  famfs_log_file_meta_to_msg type fm = if ltb msg_size z.header_size then none else (do
    n ← header_count fm.fm_fmap
    if fm.fm_fmap.fmap_ext_type == ext_simple
        then simple_message type fm
        else if fm.fm_fmap.fmap_ext_type == ext_interleave
        then striped_message type fm n
        else none)
