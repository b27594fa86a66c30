-- ===== src/Mkfs/Walk.antt =====
-- mkfs.c and aefs.c: the kernel reads the tree of files that mkfs has visited.
use aenix.Base.{ℕ, ◌+◌, ◌*◌, ◌^◌, ◌≤◌, ◌<◌, ◌≡◌, refl, ap, ◌∙◌, false, [], some, arith, inl, ◌==◌}
use aenix.Math.{div_ceil}
use aenix.Math.Laws.{div_ceil_lem}
use aenix.Aefs.{AefsInode, aefs_inode_size, aefs_block_size, block_ids}
use aenix.CString.{Str}
use aenix.Aefs.Fill.{range}
use aenix.Mkfs.{
  HostFile, reg, dir, HostEntries, end, entry, Fs, num_files, dir_blocks, sizeof_direntry,
  begin_dir, end_dir, fill_inode, visit, visit_entries, visit_file, put_entry,
}
use aenix.Mkfs.Chain.{Head}
use aenix.Mkfs.Inode.{IsFilled, fill_inode-IsFilled}
use aenix.Mkfs.Directory.{
  entries_in, AreWhole, entries_in-agree, clear_blocks-others, clear_blocks-AreWhole,
}
use aenix.Mkfs.Tree.{Stores, weight, weight_all, IsFit, AreFit, HasVisited, ids_of}
use aenix.Mkfs.Entries.{
  HasVisitedAll, end-HasVisitedAll, with_entry, with_entry-AreWhole, entry-HasVisitedAll,
}
use aenix.Mkfs.File.{visit_file-HasVisited}

module _ (es : HostEntries) (fs : Fs) (fit : IsFit (dir es))
    (inodes_room : fs.image.next_inode_id + weight (dir es) < 2 ^ 16)
    (blocks_room : fs.next_block_id + weight (dir es) ≤ 2 ^ 16) where
  abbrev pub n : ℕ
  n = dir_blocks (num_files es)

  abbrev pub begun : Fs
  begun = begin_dir (num_files es) fs

  -- The blocks have room for the entries.
  pub dir_room : num_files es ≤ n * 4
  unfolding IsFit dir_blocks
  dir_room =
      let bound =
        div_ceil_lem (num_files es * sizeof_direntry) aefs_block_size (omega (arith, fit))
          (omega arith) (omega (arith, fit)) in
      omega (arith, bound)

  -- The state in which the loop over the entries begins.
  pub begun-next :
      (begun.image.next_inode_id ≡ fs.image.next_inode_id + 1)
      × (begun.next_block_id ≡ fs.next_block_id + n)
  unfolding begin_dir weight
  begun-next = (omega (arith, inodes_room), omega (arith, blocks_room))

  pub begun-AreWhole : AreWhole begun.blocks fs.next_block_id n
  unfolding begin_dir
  begun-AreWhole = clear_blocks-AreWhole n fs.blocks fs.next_block_id

  -- After the loop, the inode of the directory completes the visit.
  pub dir-HasVisited :
      (f : Fs)
      → HasVisitedAll fs.next_block_id n 0 begun es f
      → HasVisited fs
          (weight (dir es))
          (end_dir fs.image.next_inode_id fs.next_block_id (num_files es) f).1
          (λ g. Stores g fs.image.next_inode_id (dir es))
  unfolding begin_dir end_dir dir_blocks Stores weight IsFit
  dir-HasVisited f all =
      let id = fs.image.next_inode_id in
      let start = fs.next_block_id in
      let size = sizeof_direntry * num_files es in
      let next = begun-next in
      let filled : IsFilled f.image id 1 size n start (fill_inode f.image id 1 size n start) =
        fill_inode-IsFilled f.image id 1 size n start (omega (arith, all.inodes_up, next))
          (omega (arith, all.inodes_within, next, inodes_room)) (omega (arith, blocks_room))
          (omega (arith, fit)) in
      record {
        inodes_up = omega (arith, all.inodes_up, next, filled.up);
        inodes_within = omega (arith, all.inodes_within, next, filled.within);
        blocks_up = omega (arith, all.blocks_up, next);
        blocks_within = omega (arith, all.blocks_within, next);
        same_inodes = λ a lt.
            filled.others a (omega (arith, lt, all.inodes_up, next)) (omega (arith, lt))
            ∙ all.same_inodes a (omega (arith, lt, next));
        same_blocks = λ b lt.
            all.same_blocks b (omega (arith, lt, next)) (inl lt)
            ∙ clear_blocks-others n fs.blocks start b (inl lt);
        stores = λ g agrees.
            let here : g.image.inodes id ≡ (fill_inode f.image id 1 size n start).inodes id =
              agrees.inodes id (omega arith) (omega (arith, all.inodes_up, next, filled.up)) in
            let size_of : aefs_inode_size (g.image.inodes id) ≡ num_files es * sizeof_direntry =
              ap aefs_inode_size here ∙ ap (λ (h : Head). h.size) filled.head_of ∙ omega arith in
            let kind : (g.image.inodes id).type_ ≡ 1 =
              ap (λ (i : AefsInode). i.type_) here ∙ ap (λ (h : Head). h.type_) filled.head_of in
            let placed = all.placed [] (entries_in begun.blocks (range start n)) refl refl in
            let ids : ids_of g id ≡ range start n =
              ap (λ z. block_ids (div_ceil z aefs_block_size) g.image.inodes (g.image.inodes id) 0)
                size_of
              ∙ filled.readable g.image.inodes (λ a from to. agrees.inodes a from to) in
            (
              all.listing,
              placed.0,
              ground (arith, kind),
              omega (arith, size_of, all.many),
              ap (entries_in g.blocks) ids
                  ∙ entries_in-agree n start f.blocks g.blocks
                      (λ b from to. agrees.blocks b from (omega (arith, to, all.blocks_up, next)))
                  ∙ placed.1,
              all.stores g (record {
                inodes = λ a from to.
                    agrees.inodes a (omega (arith, from, next)) (omega (arith, to, filled.up))
                    ∙ filled.others a to (omega (arith, from, next));
                blocks = λ b from to. agrees.blocks b (omega (arith, from, next)) to;
              }),
            );
      }

module _ (num_inodes : ℕ) where
  visit-dir :
      (es : HostEntries) (fs f : Fs)
      → fs.image.next_inode_id < num_inodes
      → visit_entries num_inodes es (begin_dir (num_files es) fs) fs.next_block_id 0 ≡ some f
      → visit num_inodes (dir es) fs
        ≡ some (
          fs.image.next_inode_id,
          (end_dir fs.image.next_inode_id fs.next_block_id (num_files es) f).1,
        )
  unfolding visit end_dir
  visit-dir es fs f lt e =
      let left : (fs.image.next_inode_id == num_inodes) ≡ false = ground (arith, lt) in
      rw (left, e) refl

  visit_entries-entry :
      (name : Str) (t : HostFile) (es : HostEntries) (fs : Fs) (start i id : ℕ) (fs1 f : Fs)
      → visit num_inodes t fs ≡ some (id, fs1)
      → visit_entries num_inodes es
          (record fs1 { blocks = put_entry fs1.blocks start i name id })
          start
          (i + 1)
        ≡ some f
      → visit_entries num_inodes (entry name t es) fs start i ≡ some f
  unfolding visit
  visit_entries-entry name t es fs start i id fs1 f e later = rw e later

module _ (num_inodes : ℕ) (few : num_inodes < 2 ^ 16) where
  mutual
    unfolding visit weight IsFit

    pub visit_tree :
        (t : HostFile) (fs : Fs)
        → IsFit t
        → fs.image.next_inode_id + weight t ≤ num_inodes
        → fs.next_block_id + weight t ≤ 2 ^ 16
        → (f : Fs) × (visit num_inodes t fs ≡ some (fs.image.next_inode_id, f))
          × HasVisited fs (weight t) f (λ g. Stores g fs.image.next_inode_id t)
    visit_tree (reg bytes) fs fit inodes_room blocks_room =
        let v = visit_file-HasVisited bytes fs fit (omega arith) (omega arith) in
        ((visit_file bytes fs).1, ap (λ i. some (i, (visit_file bytes fs).1)) v.0, v.1)
    visit_tree (dir es) fs fit inodes_room blocks_room =
        let start = fs.next_block_id in
        let next = begun-next es fs fit (omega arith) (omega arith) in
        let loop =
          visit_all es start (dir_blocks (num_files es)) 0 (begin_dir (num_files es) fs) fit.2
            (begun-AreWhole es fs fit (omega arith) (omega arith)) (omega (arith, next))
            (omega (arith, dir_room es fs fit (omega arith) (omega arith))) (omega (arith, next))
            (omega (arith, next)) in
        (
          (end_dir fs.image.next_inode_id start (num_files es) loop.0).1,
          visit-dir num_inodes es fs loop.0 (omega arith) loop.1,
          dir-HasVisited es fs fit (omega arith) (omega arith) loop.0 loop.2,
        )

    visit_all :
        (es : HostEntries) (start n i : ℕ) (fs : Fs)
        → AreFit es
        → AreWhole fs.blocks start n
        → start + n ≤ fs.next_block_id
        → i + num_files es ≤ n * 4
        → fs.image.next_inode_id + weight_all es ≤ num_inodes
        → fs.next_block_id + weight_all es ≤ 2 ^ 16
        → (f : Fs) × (visit_entries num_inodes es fs start i ≡ some f)
          × HasVisitedAll start n i fs es f
    visit_all end start n i fs fit whole below room inodes_room blocks_room =
        (fs, refl, end-HasVisitedAll start n i fs)
    visit_all (entry name t es) start n i fs fit whole below room inodes_room blocks_room =
        let one = visit_tree t fs fit.1 (omega arith) (omega arith) in
        let id = fs.image.next_inode_id in
        let fs2 =
          with_entry start n i fs whole below (omega arith) name fit.0 t id (omega arith) one.0
            one.2 in
        let later =
          visit_all es start n (i + 1) fs2 fit.2
            (with_entry-AreWhole start n i fs whole below (omega arith) name fit.0 t id
              (omega arith) one.0 one.2)
            (omega (arith, one.2.blocks_up)) (omega arith) (omega (arith, one.2.inodes_within))
            (omega (arith, one.2.blocks_within)) in
        (
          later.0,
          visit_entries-entry num_inodes name t es fs start i id one.0 later.0 one.1 later.1,
          entry-HasVisitedAll start n i fs whole below (omega arith) name fit.0 t id (omega arith)
              one.0 one.2 es later.0 later.2,
        )
