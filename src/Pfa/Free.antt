-- ===== src/Pfa/Free.antt =====
-- That `pfa_free_cont` takes back what `pfa_allocate` handed out.
use aenix.Base.{
  ℕ, zero, suc, ◌+◌, ◌*◌, ◌≤◌, ◌<◌, ◌≡◌, ◌≢◌, refl, ap, subst, sym, ◌∙◌, false, inl, inr, arith,
  ◌==◌, add32, mul32,
}
use aenix.Pfa.{
  Pfa, pfa_allocate, pfa_free, pfa_free_cont, free_loop, idx_for_paddr, toggle_bits, toggle_bit,
  with_bits,
}
use aenix.Pfa.Bitmap.{frame, frame-toggle_bits}
use aenix.Pfa.Regions.{locate, Within, idx_for_paddr-locate, locate-add, locate-lt}
use aenix.Pfa.Allocate.{IsValid, regions0, toggled-IsValid, Grants, pfa_allocate-Grants}

-- Page `i` of a run in one entry is freed by toggling its frame.
pfa_free-page :
    {q : Pfa} (idx num i : ℕ)
    → IsValid q
    → Within q.mmap (idx * 0x1000) (num * 0x1000)
    → i < num
    → pfa_free q (add32 (locate q.mmap (idx * 0x1000)) (mul32 i 0x1000))
      ≡ with_bits q (toggle_bit q.page_frames.start (idx + i))
unfolding pfa_free
pfa_free-page {q} idx num i v w h =
    let (there, inside) =
      locate-add q.mmap (idx * 0x1000) (num * 0x1000) (i * 0x1000) w (omega arith) in
    let below = locate-lt 0 q.mmap (idx * 0x1000 + i * 0x1000) (regions0 v) inside in
    let address : add32 (locate q.mmap (idx * 0x1000)) (mul32 i 0x1000)
        ≡ locate q.mmap (idx * 0x1000 + i * 0x1000) =
      omega arith in
    let found : idx_for_paddr q (add32 (locate q.mmap (idx * 0x1000)) (mul32 i 0x1000)) ≡ idx + i =
      rw address
        (idx_for_paddr-locate q (idx * 0x1000 + i * 0x1000) (regions0 v) inside ∙ omega arith) in
    let known : (idx + i == q.page_frames.len) ≡ false = ground (arith, v.frames) in
    rw (found, known)

free_loop-toggle_bits :
    (n : ℕ) (q : Pfa) (idx num i : ℕ)
    → IsValid q
    → Within q.mmap (idx * 0x1000) (num * 0x1000)
    → i + n ≤ num
    → free_loop q (locate q.mmap (idx * 0x1000)) i n
      ≡ with_bits q (toggle_bits q.page_frames.start (idx + i) n)
unfolding free_loop toggle_bits with_bits
free_loop-toggle_bits zero q idx num i v w h = refl
free_loop-toggle_bits (suc n) q idx num i v w h =
    let bits = toggle_bit q.page_frames.start (idx + i) in
    rw (pfa_free-page idx num i v w (omega arith)) (
      free_loop-toggle_bits n (with_bits q bits) idx num (i + 1) (toggled-IsValid (idx + i) 1 v) w
        (omega arith)
      ∙ ap (λ t. with_bits q (toggle_bits bits t n)) (omega arith))

-- `pfa_free_cont` of a run in one entry turns over the bits of exactly its frames.
pub pfa_free_cont-toggle_bits :
    (q : Pfa) (idx num : ℕ)
    → IsValid q
    → Within q.mmap (idx * 0x1000) (num * 0x1000)
    → pfa_free_cont q (locate q.mmap (idx * 0x1000)) num
      ≡ with_bits q (toggle_bits q.page_frames.start idx num)
unfolding pfa_free_cont
pfa_free_cont-toggle_bits q idx num v w =
    free_loop-toggle_bits num q idx num 0 v w (omega arith)
    ∙ ap (λ t. with_bits q (toggle_bits q.page_frames.start t num)) (omega arith)

Grants-pfa_free_cont :
    {p : Pfa} {r : ℕ × Pfa} (num : ℕ)
    → Grants p num r
    → (j : ℕ) → frame (pfa_free_cont r.1 r.0 num).page_frames.start j ≡ frame p.page_frames.start j
unfolding with_bits
Grants-pfa_free_cont {p} {r} num g j =
    let within =
      subst (λ m. Within m (g.idx * 0x1000) (num * 0x1000)) (sym g.same_map.0) g.in_one_entry in
    let address : r.0 ≡ locate r.1.mmap (g.idx * 0x1000) =
      g.address ∙ ap (λ m. locate m (g.idx * 0x1000)) (sym g.same_map.0) in
    rw (address, pfa_free_cont-toggle_bits r.1 g.idx num g.valid within)
      (rw (frame-toggle_bits r.1.page_frames.start g.idx num j g.in_bitmap, g.taken j)
        (ground (arith, g.were_free j)))

-- Freeing what was allocated gives every frame the state that it had before.
pub pfa_free_cont-pfa_allocate :
    {p : Pfa} (num : ℕ)
    → IsValid p
    → 0 < num
    → (pfa_allocate p num).0 ≢ 0
    → (j : ℕ)
    → frame (pfa_free_cont (pfa_allocate p num).1 (pfa_allocate p num).0 num).page_frames.start j
      ≡ frame p.page_frames.start j
pfa_free_cont-pfa_allocate num v h ne j = elim (pfa_allocate-Grants num v h) [
  | inl failed ↦ absurd (ne (ap (λ r. r.0) failed))
  | inr g ↦ Grants-pfa_free_cont num g j
]
