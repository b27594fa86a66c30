-- ===== src/Mkfs/Chain.antt =====
-- mkfs.c and aefs.c: an inode with its tails stays readable while later files get other inodes.
use aenix.Base.{
  ℕ, zero, suc, ◌+◌, ◌%◌, ◌^◌, ◌≤◌, ◌<◌, ◌≡◌, refl, ap, ap₂, subst, sym, ◌∙◌, ◌∷◌, arith,
  Bool-cases, inl, inr, nat_cases,
}
use aenix.Aefs.{
  AefsInode, aefs_inode_size, Image, update, is_tail, with_tail, put_block, fill_loop, block_ids,
}
use aenix.Aefs.Fill.{Keeps, switch-Keeps, fill_loop-Keeps, update_here, update_other}

pub fill_loop-next :
    (left : ℕ) (img : Image) (list i start : ℕ)
    → img.next_inode_id + left < 2 ^ 16
    → (img.next_inode_id ≤ (fill_loop left img list i start).next_inode_id)
      × ((fill_loop left img list i start).next_inode_id ≤ img.next_inode_id + left)
unfolding fill_loop
fill_loop-next zero img list i start room = omega arith
fill_loop-next (suc left) img list i start room = elim (Bool-cases (is_tail i)) [
  | inl t ↦
      rw (fill_loop, t)
        (let ih =
            fill_loop-next left
              (put_block (with_tail img list) img.next_inode_id (i % 5) ((start + i) % 0x1_0000))
              img.next_inode_id (i + 1) start (omega arith) in
          omega (arith, ih))
  | inr t ↦
      rw (fill_loop, t)
        (let ih =
            fill_loop-next left (put_block img list (i % 5) ((start + i) % 0x1_0000)) list (i + 1)
              start (omega arith) in
          omega (arith, ih))
]

-- The type and the size of an inode.
pub record Head : Type 0 where
  pub type_ : ℕ
  pub size : ℕ

abbrev pub head : AefsInode → Head
head n = record { type_ = n.type_; size = aefs_inode_size n }

head_update :
    (inodes : ℕ → AefsInode) (a b : ℕ) (n : AefsInode)
    → head n ≡ head (inodes b)
    → head (update inodes b n a) ≡ head (inodes a)
head_update inodes a b n e = elim (nat_cases a b) [
  | inl same ↦
      subst (λ c. head (update inodes b n c) ≡ head (inodes c)) (sym same)
        (ap head (update_here inodes b n) ∙ e)
  | inr ne ↦ ap head (update_other inodes b n a (ground (arith, ne)))
]

pub head-fill_loop :
    (left : ℕ) (img : Image) (list i start a : ℕ)
    → img.next_inode_id + left < 2 ^ 16
    → a < img.next_inode_id
    → head ((fill_loop left img list i start).inodes a) ≡ head (img.inodes a)
unfolding fill_loop
head-fill_loop zero img list i start a room lt = refl
head-fill_loop (suc left) img list i start a room lt = elim (Bool-cases (is_tail i)) [
  | inl t ↦
      let next = img.next_inode_id in
      let w = with_tail img list in
      let id = (start + i) % 0x1_0000 in
      rw (fill_loop, t)
        (head-fill_loop left (put_block w next (i % 5) id) next (i + 1) start a (omega arith)
            (omega arith)
          ∙ ap head (update_other w.inodes next _ a (inl lt))
          ∙ ap head (
              update_other (update img.inodes list (record (img.inodes list) { inode_tail = next }))
                next _ a (inl lt))
          ∙ head_update img.inodes a list (record (img.inodes list) { inode_tail = next }) refl)
  | inr t ↦
      let id = (start + i) % 0x1_0000 in
      rw (fill_loop, t)
        (head-fill_loop left (put_block img list (i % 5) id) list (i + 1) start a (omega arith)
            (omega arith)
          ∙ head_update img.inodes a list _ refl)
]

-- The blocks are also reached in a later state, where the inode and those that were new are the
-- same.
pub block_ids-agree :
    (left : ℕ) (img : Image) (list i start : ℕ) (g : ℕ → AefsInode)
    → list < img.next_inode_id
    → img.next_inode_id + left < 2 ^ 16
    → ((a : ℕ)
        → list ≤ a
        → a < (fill_loop left img list i start).next_inode_id
        → g a ≡ (fill_loop left img list i start).inodes a)
    → block_ids left g (g list) i
      ≡ block_ids left
          (fill_loop left img list i start).inodes
          ((fill_loop left img list i start).inodes list)
          i
unfolding block_ids fill_loop
block_ids-agree zero img list i start g lt room same = refl
block_ids-agree (suc left) img list i start g lt room same = elim (Bool-cases (is_tail i)) [
  | inl t ↦
      let next = img.next_inode_id in
      let img' = put_block (with_tail img list) next (i % 5) ((start + i) % 0x1_0000) in
      let f = fill_loop left img' next (i + 1) start in
      let bound = fill_loop-next left img' next (i + 1) start (omega arith) in
      let whole : Keeps img list i (suc left) f =
        switch-Keeps img list i left ((start + i) % 0x1_0000) f lt (omega arith)
          (fill_loop-Keeps left img' next (i + 1) start (omega arith) (omega arith)) in
      let tail : (f.inodes list).inode_tail ≡ next = whole.tail t (omega arith) in
      let e : f ≡ fill_loop (suc left) img list i start = rw t refl in
      let same' : (a : ℕ) → list ≤ a → a < f.next_inode_id → g a ≡ f.inodes a =
        subst (λ (h : Image). (a : ℕ) → list ≤ a → a < h.next_inode_id → g a ≡ h.inodes a) (sym e)
          same in
      let first : g list ≡ f.inodes list = same' list (omega arith) (omega arith) in
      let second : g next ≡ f.inodes next = same' next (omega arith) (omega arith) in
      subst
        (λ (h : Image).
          block_ids (suc left) g (g list) i ≡ block_ids (suc left) h.inodes (h.inodes list) i)
        e
        (rw (first, t, tail)
          (ap₂ (λ x xs. x ∷ xs) (ap (λ (n : AefsInode). n.blocks (i % 5)) second)
            (block_ids-agree left img' next (i + 1) start g (omega arith) (omega arith)
              (λ a from to. same' a (omega arith) to))))
  | inr t ↦
      let img' = put_block img list (i % 5) ((start + i) % 0x1_0000) in
      let f = fill_loop left img' list (i + 1) start in
      let bound = fill_loop-next left img' list (i + 1) start (omega arith) in
      let e : f ≡ fill_loop (suc left) img list i start = rw t refl in
      let same' : (a : ℕ) → list ≤ a → a < f.next_inode_id → g a ≡ f.inodes a =
        subst (λ (h : Image). (a : ℕ) → list ≤ a → a < h.next_inode_id → g a ≡ h.inodes a) (sym e)
          same in
      let first : g list ≡ f.inodes list = same' list (omega arith) (omega arith) in
      subst
        (λ (h : Image).
          block_ids (suc left) g (g list) i ≡ block_ids (suc left) h.inodes (h.inodes list) i)
        e
        (rw t (
          ap₂ (λ x xs. x ∷ xs) (ap (λ (n : AefsInode). n.blocks (i % 5)) first)
            (block_ids-agree left img' list (i + 1) start g lt (omega arith) same')))
]
