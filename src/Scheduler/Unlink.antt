-- ===== src/Scheduler/Unlink.antt =====
-- scheduler.c: the cell of a process is taken out of its list.
use aenix.Base.{
  ℕ, ◌≡◌, ◌≢◌, refl, ap, sym, ◌∙◌, true, false, ◌||◌, [], ◌∷◌, ◌++◌, none, some, arith, ◌==◌,
  Bool-cases, inl, inr,
}
use aenix.Scheduler.Lists.{PsList, Heap, ok, null, write, bypass, trim, unlink, Removed}
use aenix.Scheduler.Chain.{
  Returns, returns, Returns-and_then, Cells, cell, first_or, last_or, has, Chain, SameOutside,
  IsPsList, has-append, last_or-append, first_or-append, Chain-frame, Chain-write, Chain-append,
  relink,
}

Chain-prefix :
    (h : Heap) (stop : ℕ) (xs ys : Cells) → Chain h stop (xs ++ ys) → Chain h (first_or stop ys) xs
Chain-prefix h stop [] ys c = tt
Chain-prefix h stop ((a, ps) ∷ xs) ys (ne, e, out, c) = (
  ne,
  e ∙ ap (λ n. some (cell n ps)) (first_or-append stop xs ys),
  ground (arith, sym (has-append a xs ys) ∙ out),
  Chain-prefix h stop xs ys c,
)

Chain-suffix : (h : Heap) (stop : ℕ) (xs ys : Cells) → Chain h stop (xs ++ ys) → Chain h stop ys
Chain-suffix h stop [] ys c = c
Chain-suffix h stop ((a, ps) ∷ xs) ys (ne, e, out, c) = Chain-suffix h stop xs ys c

Chain-apart :
    (h : Heap) (stop : ℕ) (xs ys : Cells)
    → Chain h stop (xs ++ ys)
    → (b : ℕ) → has b xs ≡ true
    → has b ys ≡ false
Chain-apart h stop [] ys c b i = ground arith
Chain-apart h stop ((a, ps) ∷ xs) ys (ne, e, out, c) b i =
    let miss : (has a xs || has a ys) ≡ false = sym (has-append a xs ys) ∙ out in
    elim (Bool-cases (b == a)) [
      | inl e ↦ let same : b ≡ a = ground arith in rw same (ground (arith, miss))
      | inr e ↦ Chain-apart h stop xs ys c b (ground arith)
    ]

last_or-has : (a ps : ℕ) (xs : Cells) → has (last_or a xs) ((a, ps) ∷ xs) ≡ true
last_or-has a ps [] = ground arith
last_or-has a ps ((b, pb) ∷ xs) = ground (arith, last_or-has b pb xs)

last_or-ne-null :
    (h : Heap) (stop : ℕ) (a ps : ℕ) (xs : Cells)
    → Chain h stop ((a, ps) ∷ xs)
    → last_or a xs ≢ null
last_or-ne-null h stop a ps [] (ne, e, out, c) = ne
last_or-ne-null h stop a ps ((b, pb) ∷ xs) (ne, e, out, c) = last_or-ne-null h stop b pb xs c

apart-ne : (a b : ℕ) (zs : Cells) → has b zs ≡ true → has a zs ≡ false → (b == a) ≡ false
apart-ne a b zs i out = elim (Bool-cases (b == a)) [
  | inl e ↦ let same : b ≡ a = ground arith in cc (rw same at i, out)
  | inr e ↦ e
]

-- What a removal leaves: the cells around the removed one, whose own cell is freed.
abbrev pub Left : Heap → (a ps : ℕ) (xs ys : Cells) → Removed → Type 0
Left h a ps xs ys r =
    (r.removed ≡ some ps)
    × IsPsList r.heap r.pss (xs ++ ys)
    × (r.heap a ≡ none)
    × SameOutside (xs ++ (a, ps) ∷ ys) h r.heap

pub unlink-first :
    (l : PsList) (h : Heap) (a ps b pb : ℕ) (ys : Cells)
    → IsPsList h l ((a, ps) ∷ (b, pb) ∷ ys)
    → Returns (Left h a ps [] ((b, pb) ∷ ys)) (unlink l h null a (cell b ps))
unfolding unlink bypass trim
unlink-first l h a ps b pb ys is =
    let (ne, e, out, c) = is.chain in
    let more : (l.end == a) ≡ false =
      apart-ne a l.end ((b, pb) ∷ ys) (ap (λ z. has z ((b, pb) ∷ ys)) is.end ∙ last_or-has b pb ys)
        out in
    rw more (
      returns (
        refl,
        record {
          start = refl;
          end = is.end;
          chain = Chain-write h null a none ((b, pb) ∷ ys) c out;
        },
        ground arith,
        λ d o. ground arith,
      ))

-- The cells before and after the removed one.
Around : Heap → (c pc a ps : ℕ) (xs ys : Cells) → Type 0
Around h c pc a ps xs ys =
    Chain h a ((c, pc) ∷ xs)
    × Chain h null ((a, ps) ∷ ys)
    × ((b : ℕ) → has b ((c, pc) ∷ xs) ≡ true → has b ((a, ps) ∷ ys) ≡ false)

around :
    (h : Heap) (c pc a ps : ℕ) (xs ys : Cells)
    → Chain h null ((c, pc) ∷ (xs ++ (a, ps) ∷ ys))
    → Around h c pc a ps xs ys
unfolding Around
around h c pc a ps xs ys ch = (
  Chain-prefix h null ((c, pc) ∷ xs) ((a, ps) ∷ ys) ch,
  Chain-suffix h null ((c, pc) ∷ xs) ((a, ps) ∷ ys) ch,
  Chain-apart h null ((c, pc) ∷ xs) ((a, ps) ∷ ys) ch,
)

apart_not :
    (xs ys : Cells) (a : ℕ)
    → ((b : ℕ) → has b xs ≡ true → has b ys ≡ false)
    → has a ys ≡ true
    → has a xs ≡ false
apart_not xs ys a apart i = elim (Bool-cases (has a xs)) [ inl e ↦ cc (apart a e, i) | inr e ↦ e ]

-- The cells before the removed one, led to `q` by a write to the last of them.
Led : Heap → (c pc q : ℕ) (xs : Cells) → Heap → Type 0
Led h c pc q xs g = Chain g q ((c, pc) ∷ xs) × SameOutside ((c, pc) ∷ xs) h g

bypass-Led :
    (l : PsList) (h : Heap) (c pc a q : ℕ) (xs : Cells)
    → Chain h a ((c, pc) ∷ xs)
    → Returns (λ (l', g). (l' ≡ l) × Led h c pc q xs g) (bypass l h (last_or c xs) q)
unfolding bypass Led
bypass-Led l h c pc a q xs before =
    let inner : (last_or c xs == null) ≡ false =
      ground (arith, last_or-ne-null h a c pc xs before) in
    rw inner (Returns-and_then _ (relink h a c pc q xs before) λ g led. returns (refl, led))

trim-last :
    (l : PsList) (h : Heap) (c pc a : ℕ) (xs : Cells)
    → l.end ≡ a
    → (q : ℕ) → Chain h q ((c, pc) ∷ xs)
    → Returns
        (λ (l', g). (l' ≡ record l { end = last_or c xs }) × Led h c pc null xs g)
        (trim l h (last_or c xs) a)
unfolding trim Led
trim-last l h c pc a xs last q ch =
    let here : (l.end == a) ≡ true = ground arith in
    rw here (Returns-and_then _ (relink h q c pc null xs ch) λ g led. returns (refl, led))

trim-same :
    (l : PsList) (h : Heap) (prev a : ℕ) → (l.end == a) ≡ false → trim l h prev a ≡ ok (l, h)
unfolding trim
trim-same l h prev a other = rw other refl

-- After the write to the cells before it, the removed cell is freed.
module _ (h g : Heap) (c pc a ps : ℕ) (xs ys : Cells) where
  rejoin :
      Led h c pc (first_or null ys) xs g
      → Chain h null ((a, ps) ∷ ys)
      → ((b : ℕ) → has b ((c, pc) ∷ xs) ≡ true → has b ((a, ps) ∷ ys) ≡ false)
      → Chain (write g a none) null ((c, pc) ∷ (xs ++ ys))
  unfolding Led
  rejoin (chain, same) (ne, e, out, after) apart =
      let a_out = apart_not ((c, pc) ∷ xs) ((a, ps) ∷ ys) a apart (ground arith) in
      let after' =
        Chain-frame h g null ys after
          λ d i. same d (apart_not ((c, pc) ∷ xs) ((a, ps) ∷ ys) d apart (ground arith)) in
      Chain-append (write g a none) null ((c, pc) ∷ xs) ys
        (Chain-write g (first_or null ys) a none ((c, pc) ∷ xs) chain a_out)
        (Chain-write g null a none ys after' out) λ d i. ground (arith, apart d i)

  spared :
      SameOutside ((c, pc) ∷ xs) h g
      → SameOutside ((c, pc) ∷ (xs ++ (a, ps) ∷ ys)) h (write g a none)
  spared same d o =
      let o' : (has d ((c, pc) ∷ xs) || has d ((a, ps) ∷ ys)) ≡ false =
        sym (has-append d ((c, pc) ∷ xs) ((a, ps) ∷ ys)) ∙ o in
      ground (arith, same d, o')

-- The removed cell is between two others.
pub unlink-middle :
    (l : PsList) (h : Heap) (c pc a ps b pb : ℕ) (xs ys : Cells)
    → IsPsList h l ((c, pc) ∷ (xs ++ (a, ps) ∷ (b, pb) ∷ ys))
    → Returns (Left h a ps ((c, pc) ∷ xs) ((b, pb) ∷ ys)) (unlink l h (last_or c xs) a (cell b ps))
unfolding unlink Around Led
unlink-middle l h c pc a ps b pb xs ys is =
    let (before, after, apart) = around h c pc a ps xs ((b, pb) ∷ ys) is.chain in
    let end : l.end ≡ last_or b ys = is.end ∙ last_or-append c xs ((a, ps) ∷ (b, pb) ∷ ys) in
    let more : (l.end == a) ≡ false =
      apart-ne a l.end ((b, pb) ∷ ys) (ap (λ z. has z ((b, pb) ∷ ys)) end ∙ last_or-has b pb ys)
        after.2 in
    Returns-and_then _ (bypass-Led l h c pc a b xs before) λ (l', g) (same_l, led).
      let kept = trim-same l' g (last_or c xs) a (ap (λ (k : PsList). k.end == a) same_l ∙ more) in
      rw kept (
        returns (
          refl,
          record {
            start = ap (λ (k : PsList). k.start) same_l ∙ is.start;
            end =
                ap (λ (k : PsList). k.end) same_l ∙ end ∙ sym (last_or-append c xs ((b, pb) ∷ ys));
            chain = rejoin h g c pc a ps xs ((b, pb) ∷ ys) led after apart;
          },
          ground arith,
          spared h g c pc a ps xs ((b, pb) ∷ ys) led.1,
        ))

-- The removed cell is the last one.
pub unlink-last :
    (l : PsList) (h : Heap) (c pc a ps : ℕ) (xs : Cells)
    → IsPsList h l ((c, pc) ∷ (xs ++ (a, ps) ∷ []))
    → Returns (Left h a ps ((c, pc) ∷ xs) []) (unlink l h (last_or c xs) a (cell null ps))
unfolding unlink Around Led
unlink-last l h c pc a ps xs is =
    let (before, after, apart) = around h c pc a ps xs [] is.chain in
    let end : l.end ≡ a = is.end ∙ last_or-append c xs ((a, ps) ∷ []) in
    Returns-and_then _ (bypass-Led l h c pc a null xs before) λ (l', g) (same_l, (chain, same)).
      let end' : l'.end ≡ a = ap (λ (k : PsList). k.end) same_l ∙ end in
      Returns-and_then _ (trim-last l' g c pc a xs end' null chain)
        λ (l'', g') (same_l', (chain', same')).
          let same'' : SameOutside ((c, pc) ∷ xs) h g' = λ d o. same' d o ∙ same d o in
          returns (
            refl,
            record {
              start =
                  ap (λ (k : PsList). k.start) same_l'
                  ∙ ap (λ (k : PsList). k.start) same_l
                  ∙ is.start;
              end = ap (λ (k : PsList). k.end) same_l' ∙ sym (last_or-append c xs []);
              chain = rejoin h g' c pc a ps xs [] (chain', same'') after apart;
            },
            ground arith,
            spared h g' c pc a ps xs [] same'',
          )
