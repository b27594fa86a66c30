-- ===== src/Aefs/Fill.antt =====
-- aefs.c and mkfs.c: the kernel gets the blocks that mkfs entered.
use aenix.Base.{
  ℕ, zero, suc, ◌+◌, ◌-◌, ◌%◌, ◌^◌, ◌≤◌, ◌<◌, ◌≡◌, ◌⊎◌, refl, ap, ap₂, subst, ◌∙◌, true, false,
  List, [], ◌∷◌, ◌==◌, if◌then◌else◌, arith, Bool-cases, inl, inr,
}
use aenix.Aefs.{
  AefsInode, aefs_inode_size, Image, update, is_tail, with_tail, put_block, fill_loop,
  fill_inode_blocks, fill_inode_size, block_ids,
}

-- The size of an inode is the one that mkfs filled in, below 16 MB.
pub aefs_inode_size-fill_inode_size :
    (inode : AefsInode) (size : ℕ)
    → size < 2 ^ 24
    → aefs_inode_size (fill_inode_size inode size) ≡ size
unfolding fill_inode_size
aefs_inode_size-fill_inode_size inode size lt = omega arith

pub update_here {ℓ} : {A : Type ℓ} (f : ℕ → A) (i : ℕ) (v : A) → update f i v i ≡ v
update_here f i v = let here : (i == i) ≡ true = ground arith in rw here refl

pub update_other {ℓ} :
    {A : Type ℓ} (f : ℕ → A) (i : ℕ) (v : A) (j : ℕ) → (j < i) ⊎ (i < j) → update f i v j ≡ f j
update_other f i v j apart = let other : (j == i) ≡ false = grind arith in rw other refl

-- The blocks that the inode in use holds before round `i`.
abbrev pub held : ℕ → ℕ
held i = if i == 0 then 0 else (i - 1) % 5 + 1

-- What the rounds that are left keep.
pub record Keeps (img : Image) (list i left : ℕ) (f : Image) : Type 0 where
  pub others : (a : ℕ) → a < img.next_inode_id → (a < list) ⊎ (list < a) → f.inodes a ≡ img.inodes a
  pub blocks : (j : ℕ) → j < held i → (f.inodes list).blocks j ≡ (img.inodes list).blocks j
  pub tail : is_tail i ≡ true → 0 < left → (f.inodes list).inode_tail ≡ img.next_inode_id

held_stay : (i : ℕ) → is_tail i ≡ false → held i ≡ i % 5
held_stay i t = grind arith

held_next : (i : ℕ) → held (i + 1) ≡ i % 5 + 1
held_next i = ground arith

stay-Keeps :
    (img : Image) (list i left b : ℕ) (f : Image)
    → is_tail i ≡ false
    → Keeps (put_block img list (i % 5) b) list (i + 1) left f
    → Keeps img list i (suc left) f
stay-Keeps img list i left b f t k = record {
  others = λ a lt apart. k.others a lt apart ∙ update_other img.inodes list _ a apart;
  blocks = λ j lt.
      let before : j < i % 5 = omega (arith, held_stay i t, lt) in
      k.blocks j (omega (arith, held_next i))
      ∙ ap (λ (n : AefsInode). n.blocks j) (update_here img.inodes list _)
      ∙ update_other (img.inodes list).blocks (i % 5) b j (inl before);
  tail = λ t' pos. absurd (cc (t, t'));
}

pub switch-Keeps :
    (img : Image) (list i left b : ℕ) (f : Image)
    → list < img.next_inode_id
    → img.next_inode_id + 1 < 2 ^ 16
    → Keeps
        (put_block (with_tail img list) img.next_inode_id (i % 5) b)
        img.next_inode_id
        (i + 1)
        left
        f
    → Keeps img list i (suc left) f
switch-Keeps img list i left b f lt room k =
    let next = img.next_inode_id in
    let w = (with_tail img list).inodes in
    let inode = record (img.inodes list) { inode_tail = next } in
    let tailed = update img.inodes list inode in
    let kept : (a : ℕ) → a < next → f.inodes a ≡ (with_tail img list).inodes a =
      λ a lt'. k.others a (omega arith) (inl lt') ∙ update_other w next _ a (inl lt') in
    let linked : f.inodes list ≡ record (img.inodes list) { inode_tail = next } =
      kept list lt ∙ update_other tailed next _ list (inl lt) ∙ update_here img.inodes list inode in
    record {
      others = λ a lt' apart.
          kept a lt'
          ∙ update_other tailed next _ a (inl lt')
          ∙ update_other img.inodes list inode a apart;
      blocks = λ j lt'. ap (λ (n : AefsInode). n.blocks j) linked;
      tail = λ t' pos. ap (λ (n : AefsInode). n.inode_tail) linked;
    }

pub fill_loop-Keeps :
    (left : ℕ) (img : Image) (list i start : ℕ)
    → list < img.next_inode_id
    → img.next_inode_id + left < 2 ^ 16
    → Keeps img list i left (fill_loop left img list i start)
unfolding fill_loop
fill_loop-Keeps zero img list i start lt room = record {
  others = λ a lt' apart. refl;
  blocks = λ j lt'. refl;
  tail = λ t pos. absurd (omega arith);
}
fill_loop-Keeps (suc left) img list i start lt room = elim (Bool-cases (is_tail i)) [
  | inl t ↦ rw t (
      switch-Keeps img list i left ((start + i) % 0x1_0000) _ lt (omega arith)
        (fill_loop-Keeps left _ img.next_inode_id (i + 1) start (omega arith) (omega arith)))
  | inr t ↦ rw t (
      stay-Keeps img list i left ((start + i) % 0x1_0000) _ t
        (fill_loop-Keeps left _ list (i + 1) start lt (omega arith)))
]

-- `n` numbers from `start` on.
abbrev pub range : (start n : ℕ) → List ℕ
range start zero = []
range start (suc n) = start ∷ range (start + 1) n

-- The block that a round enters is there in the end.
entered :
    (img : Image) (list i left id : ℕ) (f : Image)
    → Keeps (put_block img list (i % 5) id) list (i + 1) left f
    → (f.inodes list).blocks (i % 5) ≡ id
entered img list i left id f k =
    k.blocks (i % 5) (omega (arith, held_next i))
    ∙ ap (λ (n : AefsInode). n.blocks (i % 5)) (update_here img.inodes list _)
    ∙ update_here (img.inodes list).blocks (i % 5) id

block_ids-fill_loop :
    (left : ℕ) (img : Image) (list i start : ℕ)
    → list < img.next_inode_id
    → img.next_inode_id + left < 2 ^ 16
    → start + i + left ≤ 2 ^ 16
    → block_ids left
        (fill_loop left img list i start).inodes
        ((fill_loop left img list i start).inodes list)
        i
      ≡ range (start + i) left
unfolding block_ids fill_loop
block_ids-fill_loop zero img list i start lt room ids = refl
block_ids-fill_loop (suc left) img list i start lt room ids = elim (Bool-cases (is_tail i)) [
  | inl t ↦
      let next = img.next_inode_id in
      let img' = put_block (with_tail img list) next (i % 5) ((start + i) % 0x1_0000) in
      let f = fill_loop left img' next (i + 1) start in
      let k = fill_loop-Keeps left img' next (i + 1) start (omega arith) (omega arith) in
      let whole : Keeps img list i (suc left) f =
        switch-Keeps img list i left ((start + i) % 0x1_0000) f lt (omega arith) k in
      let tail : (f.inodes list).inode_tail ≡ next = whole.tail t (omega arith) in
      let same : f ≡ fill_loop (suc left) img list i start = rw t refl in
      subst
        (λ (g : Image).
          block_ids (suc left) g.inodes (g.inodes list) i ≡ range (start + i) (suc left))
        same
        (rw (t, tail)
          (ap₂ (λ x xs. x ∷ xs)
            (entered (with_tail img list) next i left ((start + i) % 0x1_0000) f k ∙ omega arith)
            (block_ids-fill_loop left img' next (i + 1) start (omega arith) (omega arith)
                (omega arith)
              ∙ ap (λ n. range n left) (omega arith))))
  | inr t ↦
      let img' = put_block img list (i % 5) ((start + i) % 0x1_0000) in
      let f = fill_loop left img' list (i + 1) start in
      let k = fill_loop-Keeps left img' list (i + 1) start lt (omega arith) in
      let same : f ≡ fill_loop (suc left) img list i start = rw t refl in
      subst
        (λ (g : Image).
          block_ids (suc left) g.inodes (g.inodes list) i ≡ range (start + i) (suc left))
        same
        (rw t (
          ap₂ (λ x xs. x ∷ xs) (entered img list i left ((start + i) % 0x1_0000) f k ∙ omega arith)
            (block_ids-fill_loop left img' list (i + 1) start lt (omega arith) (omega arith)
              ∙ ap (λ n. range n left) (omega arith))))
]

-- The blocks that the kernel gets one after the other, following the tails of the inodes, are
-- those that `fill_inode_blocks` of mkfs was told to enter, as long as the numbers of inodes and
-- blocks stay below 2^16 and the inode was there before the tails.
pub block_ids-fill_inode_blocks :
    (img : Image) (inode blocks_required start : ℕ)
    → inode < img.next_inode_id
    → img.next_inode_id + blocks_required < 2 ^ 16
    → start + blocks_required ≤ 2 ^ 16
    → block_ids blocks_required
        (fill_inode_blocks img inode blocks_required start).inodes
        ((fill_inode_blocks img inode blocks_required start).inodes inode)
        0
      ≡ range start blocks_required
unfolding fill_inode_blocks
block_ids-fill_inode_blocks img inode n start lt room ids =
    block_ids-fill_loop n img inode 0 start lt room (omega arith)
    ∙ ap (λ s. range s n) (omega arith)
