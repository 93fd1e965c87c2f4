-- ===== src/Yaml/Emit/Document.antt =====
-- The YAML document that a file's metadata stands for: a mapping with the one key `file`.
use famfs.Prelude.{ℕ, zero, suc, ◌+◌, ◌==◌, if◌then◌else◌}
use famfs.Prelude.Text.{codes}
use famfs.Meta.{SimpleExtent, LogFmap, LogFileMeta, ext_simple, ext_interleave}
use famfs.Meta.Fmap.{fmap_nextents, fmap_niext, se, ie_nstrips, ie_chunk_size, ie_strips}
use famfs.Yaml.Numbers.{print_signed, print_hex, print_octal}
use famfs.Yaml.Tree.{Node, leaf, sequence, mapping, Items, no_item, item, Pairs, no_pair, pair}
use famfs.Yaml.Emit.{loop_bound}

abbrev pub extent_node : SimpleExtent → Node
extent_node e = mapping (
    pair (codes "devindex") (leaf (print_signed 64 e.se_devindex)) (
      pair (codes "offset") (leaf (print_hex e.se_offset))
        (pair (codes "length") (leaf (print_hex e.se_len)) no_pair)))

unfoldable pub extent_items : (ℕ → SimpleExtent) → ℕ → ℕ → Items
extent_items f zero i = no_item
extent_items f (suc left) i = item (extent_node (f i)) (extent_items f left (i + 1))

abbrev pub extents_node : (ℕ → SimpleExtent) → ℕ → Node
extents_node f n = sequence (extent_items f (loop_bound n) 0)

abbrev pub interleaved_node : LogFmap → ℕ → Node
interleaved_node fm i = mapping (
    pair (codes "nstrips") (leaf (print_signed 64 (ie_nstrips fm i))) (
      pair (codes "chunk_size") (leaf (print_hex (ie_chunk_size fm i)))
        (pair (codes "simple_ext_list") (extents_node (ie_strips fm i) (ie_nstrips fm i)) no_pair)))

unfoldable pub interleaved_items : LogFmap → ℕ → ℕ → Items
interleaved_items fm zero i = no_item
interleaved_items fm (suc left) i = item (interleaved_node fm i) (interleaved_items fm left (i + 1))

unfoldable pub list_pairs : LogFmap → Pairs
list_pairs fm =
    if fm.fmap_ext_type == ext_simple
    then pair (codes "simple_ext_list") (extents_node (se fm) (fmap_nextents fm)) no_pair
    else if fm.fmap_ext_type == ext_interleave
    then pair (codes "striped_ext_list") (sequence (interleaved_items fm (fmap_niext fm) 0)) no_pair
    else no_pair

unfoldable pub file_node : LogFileMeta → Node
file_node fm = mapping (
    pair (codes "file")
      (mapping (
        pair (codes "path") (leaf fm.fm_relpath) (
          pair (codes "size") (leaf (print_signed 64 fm.fm_size)) (
            pair (codes "flags") (leaf (print_signed 32 fm.fm_flags)) (
              pair (codes "mode") (leaf (print_octal fm.fm_mode)) (
                pair (codes "uid") (leaf (print_signed 32 fm.fm_uid)) (
                  pair (codes "gid") (leaf (print_signed 32 fm.fm_gid)) (
                    pair (codes "nextents") (leaf (print_signed 32 (fmap_nextents fm.fm_fmap)))
                      (list_pairs fm.fm_fmap)))))))))
      no_pair)
