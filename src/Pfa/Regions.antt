-- ===== src/Pfa/Regions.antt =====
-- The memory map as the allocator needs it, and what frame numbers and addresses mean in it.
use aenix.Base.{
  ℕ, ◌+◌, ◌-◌, ◌*◌, ◌/◌, ◌%◌, ◌≤◌, ◌<◌, ◌≡◌, ◌∙◌, true, false, List, [], ◌∷◌, inl, inr, arith, ltb,
  leb, if◌then◌else◌, u32, add32, sub32, mul32, subst, le_cases, leb→le, le→leb, lt→leb, lt→ltb,
  le→ltb, ap,
}
use aenix.Pfa.{
  MemoryMap, Pfa, paddr_loop, idx_loop, fits_loop, paddr_for_idx, idx_for_paddr,
  fits_in_one_mmap_entry,
}

-- Page-aligned entries in ascending order from `lo` on, none of which reaches 2 ^ 32.
abbrev pub Regions : ℕ → List MemoryMap → Type 0
Regions lo [] = Unit
Regions lo (e ∷ es) =
    (lo ≤ e.addr)
    × (e.addr % 0x1000 ≡ 0)
    × (e.len % 0x1000 ≡ 0)
    × (e.addr + e.len < u32)
    × Regions (e.addr + e.len) es

abbrev pub total : List MemoryMap → ℕ
total [] = 0
total (e ∷ es) = e.len + total es

-- The address at byte `o` of the entries, laid end to end.
abbrev pub locate : List MemoryMap → ℕ → ℕ
locate [] o = 0
locate (e ∷ es) o = if ltb o e.len then e.addr + o else locate es (o - e.len)

-- Bytes `o` to `o + n` lie in one entry.
abbrev pub Within : List MemoryMap → ℕ → ℕ → Type 0
Within [] o n = ⊥
Within (e ∷ es) o n = if ltb o e.len then o + n ≤ e.len else Within es (o - e.len) n

pub total-lt : (lo : ℕ) (es : List MemoryMap) → lo < u32 → Regions lo es → lo + total es < u32
total-lt lo [] h r = omega arith
total-lt lo (e ∷ es) h (a, b, c, d, rest) = omega (arith, total-lt (e.addr + e.len) es d rest)

pub locate-ge :
    (lo : ℕ) (es : List MemoryMap) (o : ℕ) → Regions lo es → o < total es → lo ≤ locate es o
locate-ge lo [] o r h = absurd (omega arith)
locate-ge lo (e ∷ es) o (a, b, c, d, rest) h =
    ground (arith, locate-ge (e.addr + e.len) es (o - e.len) rest)

module _ (e : MemoryMap) (c o : ℕ) (fits : c + e.len < u32) where
  -- One round of the loops over the entries: the offset lies behind entry `e`, or in it.
  pub skips : c + e.len ≤ o → leb (add32 c e.len) o ≡ true
  skips h = le→leb (add32 c e.len) o (omega arith)

  pub stops : o < c + e.len → leb (add32 c e.len) o ≡ false
  stops h = lt→leb (add32 c e.len) o (omega arith)

pub locate-lt :
    (lo : ℕ) (es : List MemoryMap) (o : ℕ) → Regions lo es → o < total es → locate es o < u32
locate-lt lo [] o r h = absurd (omega arith)
locate-lt lo (e ∷ es) o (a, b, c, d, rest) h =
    ground (arith, locate-lt (e.addr + e.len) es (o - e.len) rest)

paddr_loop-locate :
    (lo : ℕ) (es : List MemoryMap) (c o : ℕ)
    → Regions lo es
    → c ≤ o
    → o < c + total es
    → c + total es < u32
    → paddr_loop es c o ≡ locate es (o - c)
unfolding paddr_loop
paddr_loop-locate lo [] c o r h k s = absurd (omega arith)
paddr_loop-locate lo (e ∷ es) c o (a, b, al, d, rest) h k s = elim (le_cases (c + e.len) o) [
  | inl behind ↦
      let next : add32 c e.len ≡ c + e.len = omega arith in
      rw (skips e c o (omega arith) behind, le→ltb (o - c) e.len (omega arith), next)
        (paddr_loop-locate (e.addr + e.len) es (c + e.len) o rest behind (omega arith) (omega arith)
          ∙ ap (locate es) (omega arith))
  | inr here ↦ rw (stops e c o (omega arith) here, lt→ltb (o - c) e.len (omega arith)) (omega arith)
]

-- `paddr_for_idx` is the address of byte `k * 4096`, for each frame of the map.
pub paddr_for_idx-locate :
    (es : List MemoryMap) (k : ℕ)
    → Regions 0 es
    → k * 0x1000 < total es
    → paddr_for_idx es k ≡ locate es (k * 0x1000)
unfolding paddr_for_idx
paddr_for_idx-locate es k r h =
    let small : 0 + total es < u32 = total-lt 0 es (omega arith) r in
    let offset : k * 0x1000 % u32 ≡ k * 0x1000 = omega arith in
    rw offset (
      paddr_loop-locate 0 es 0 (k * 0x1000) r (omega arith) (omega arith) small
      ∙ ap (locate es) (omega arith))

idx_loop-locate :
    (len lo : ℕ) (es : List MemoryMap) (b o : ℕ)
    → Regions lo es
    → o < total es
    → b + total es < u32
    → idx_loop len es b (locate es o) ≡ (b + o) / 0x1000
unfolding idx_loop
idx_loop-locate len lo [] b o r h s = absurd (omega arith)
idx_loop-locate len lo (e ∷ es) b o (a, c, al, d, rest) h s = elim (le_cases e.len o) [
  | inl behind ↦
      let above : e.addr + e.len ≤ locate es (o - e.len) =
        locate-ge (e.addr + e.len) es (o - e.len) rest (omega arith) in
      let next : add32 b e.len ≡ b + e.len = omega arith in
      rw
        (
          le→ltb o e.len behind,
          le→ltb (locate es (o - e.len)) (add32 e.addr e.len) (omega arith),
          next,
        )
        (idx_loop-locate len (e.addr + e.len) es (b + e.len) (o - e.len) rest (omega arith)
            (omega arith)
          ∙ ap (λ n. n / 0x1000) (omega arith))
  | inr here ↦
      rw (lt→ltb o e.len here, lt→ltb (e.addr + o) (add32 e.addr e.len) (omega arith))
        (ap (λ n. n / 0x1000) (omega arith))
]

-- `idx_for_paddr` finds the frame that holds byte `o` of the map.
pub idx_for_paddr-locate :
    (p : Pfa) (o : ℕ)
    → Regions 0 p.mmap
    → o < total p.mmap
    → idx_for_paddr p (locate p.mmap o) ≡ o / 0x1000
unfolding idx_for_paddr
idx_for_paddr-locate p o r h =
    idx_loop-locate p.page_frames.len 0 p.mmap 0 o r h (total-lt 0 p.mmap (omega arith) r)
    ∙ ap (λ n. n / 0x1000) (omega arith)

-- The frame number of a frame's address is that frame: `idx_for_paddr` inverts `paddr_for_idx`.
pub idx_for_paddr-paddr_for_idx :
    (p : Pfa) (k : ℕ)
    → Regions 0 p.mmap
    → k * 0x1000 < total p.mmap
    → idx_for_paddr p (paddr_for_idx p.mmap k) ≡ k
idx_for_paddr-paddr_for_idx p k r h =
    rw (paddr_for_idx-locate p.mmap k r h) (idx_for_paddr-locate p (k * 0x1000) r h ∙ omega arith)

fits_loop-Within :
    (lo : ℕ) (es : List MemoryMap) (c o n : ℕ)
    → Regions lo es
    → c ≤ o
    → c + total es < u32
    → o + n * 0x1000 < u32
    → fits_loop es c o n ≡ true
    → Within es (o - c) (n * 0x1000)
unfolding fits_loop
fits_loop-Within lo [] c o n r h s m f = cc
fits_loop-Within lo (e ∷ es) c o n (a, b, al, d, rest) h s m f = elim (le_cases (c + e.len) o) [
  | inl behind ↦
      let next : add32 c e.len ≡ c + e.len = omega arith in
      let f' : fits_loop es (c + e.len) o n ≡ true =
        rw (skips e c o (omega arith) behind, next) at f in
      rw (le→ltb (o - c) e.len (omega arith)) (
        subst (λ t. Within es t (n * 0x1000)) (omega arith)
          (fits_loop-Within (e.addr + e.len) es (c + e.len) o n rest behind (omega arith) m f'))
  | inr here ↦
      let f' : leb (add32 (sub32 o c) (mul32 n 0x1000)) e.len ≡ true =
        rw (stops e c o (omega arith) here) at f in
      let sum : add32 (sub32 o c) (mul32 n 0x1000) ≤ e.len = leb→le _ _ f' in
      rw (lt→ltb (o - c) e.len (omega arith)) (omega arith)
]

-- A run that `fits_in_one_mmap_entry` accepts lies in one entry.
pub fits-Within :
    (es : List MemoryMap) (k n : ℕ)
    → Regions 0 es
    → k * 0x1000 + n * 0x1000 < u32
    → fits_in_one_mmap_entry es k n ≡ true
    → Within es (k * 0x1000) (n * 0x1000)
unfolding fits_in_one_mmap_entry
fits-Within es k n r m f =
    let offset : k * 0x1000 % u32 ≡ k * 0x1000 = omega arith in
    subst (λ t. Within es t (n * 0x1000)) (omega arith)
      (fits_loop-Within 0 es 0 (k * 0x1000) n r (omega arith) (total-lt 0 es (omega arith) r) m
        (rw offset at f))

-- A page inside a run in one entry lies as far behind the run's first page as its number tells.
pub locate-add :
    (es : List MemoryMap) (o n d : ℕ)
    → Within es o n
    → d < n
    → (locate es (o + d) ≡ locate es o + d) × (o + d < total es)
locate-add [] o n d w h = absurd w
locate-add (e ∷ es) o n d w h = elim (le_cases e.len o) [
  | inl behind ↦
      let w' : Within es (o - e.len) n = rw (le→ltb o e.len behind) at w in
      let shift : o + d - e.len ≡ o - e.len + d = omega arith in
      rw (le→ltb o e.len behind, le→ltb (o + d) e.len (omega arith), shift)
        (omega (arith, locate-add es (o - e.len) n d w' h))
  | inr here ↦
      let w' : o + n ≤ e.len = rw (lt→ltb o e.len here) at w in
      rw (lt→ltb o e.len here, lt→ltb (o + d) e.len (omega arith)) (omega arith)
]
