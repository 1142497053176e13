-- ===== src/Tasklib/Elements/Layout.antt =====
-- What a constructor of master/tasklib/element_construct.c puts into the buffer.
use tenet_t.Prelude.{
  ◌⊎◌, Fault, fault, length-take, Bool-cases, inl, inr, ◌==◌, ℕ, suc, ◌+◌, ◌-◌, ◌≤◌, ◌≡◌, refl, sym,
  ap, ◌∙◌, false, none, some, List, [], ◌∷◌, ◌++◌, append-nil, append_assoc, arith, ltb, length,
  length-append, take, drop, length-take, length-drop, ok,
}
use tenet_t.Trd.Msg.{low, high}
use tenet_t.Tasklib.Elements.{Layout, u16, extent, overlay, Built, element}
use tenet_t.Tasklib.Reading.Attrs.{encode_attrs, take-append}

-- Bytes with just those of the layout that it assigns.
abbrev pub Fits : Layout → List ℕ → Type 0
Fits [] [] = Unit
Fits [] (x ∷ v) = ⊥
Fits (b ∷ layout) [] = ⊥
Fits (some b ∷ layout) (x ∷ v) = (x ≡ b) × Fits layout v
Fits (none ∷ layout) (x ∷ v) = Fits layout v

pub length-Fits : (layout : Layout) (v : List ℕ) → Fits layout v → length v ≡ length layout
length-Fits [] [] h = refl
length-Fits [] (x ∷ v) h = absurd h
length-Fits (b ∷ layout) [] h = absurd h
length-Fits (some b ∷ layout) (x ∷ v) h = ap suc (length-Fits layout v h.1)
length-Fits (none ∷ layout) (x ∷ v) h = ap suc (length-Fits layout v h)

Fits-some :
    (b : ℕ) (layout : Layout) (v : List ℕ)
    → Fits (some b ∷ layout) v
    → (w : List ℕ) × ((v ≡ b ∷ w) × Fits layout w)
Fits-some b layout [] h = absurd h
Fits-some b layout (x ∷ v) h = (v, (ap (λ y. y ∷ v) h.0, h.1))

pub overlay-Fits :
    (layout : Layout) (old : List ℕ)
    → length layout ≤ length old
    → (v : List ℕ) × ((overlay layout old ≡ v ++ drop (length layout) old) × Fits layout v)
unfolding overlay
overlay-Fits [] old h = ([], (refl, tt))
overlay-Fits (b ∷ layout) [] h = absurd (omega arith)
overlay-Fits (some b ∷ layout) (x ∷ old) h =
    let later = overlay-Fits layout old (omega arith) in
    (b ∷ later.0, (ap (λ r. b ∷ r) later.1.0, (refl, later.1.1)))
overlay-Fits (none ∷ layout) (x ∷ old) h =
    let later = overlay-Fits layout old (omega arith) in
    (x ∷ later.0, (ap (λ r. x ∷ r) later.1.0, later.1.1))

pub length-overlay : (layout : Layout) (old : List ℕ) → length (overlay layout old) ≡ length old
unfolding overlay
length-overlay [] old = refl
length-overlay (b ∷ layout) [] = refl
length-overlay (some b ∷ layout) (x ∷ old) = ap suc (length-overlay layout old)
length-overlay (none ∷ layout) (x ∷ old) = ap suc (length-overlay layout old)

pub extent_le : (layout : Layout) → extent layout ≤ length layout
extent_le [] = omega arith
extent_le (some b ∷ layout) = omega (arith, extent_le layout)
extent_le (none ∷ layout) =
    let later = extent_le layout in
    elim (Bool-cases (extent layout == 0)) [
      | inl empty ↦ rw empty (omega arith)
      | inr more ↦ rw more (omega arith)
    ]

header :
    (type : ℕ) (params : Layout) (v : List ℕ)
    → Fits (u16 type ++ u16 (length params) ++ params) v
    → (w : List ℕ) × ((v ≡ encode_attrs (record { type = type; value = w } ∷ [])) × Fits params w)
header type params v h =
    let n = length params in
    let t = Fits-some (low type) (some (high type) ∷ u16 n ++ params) v h in
    let t' = Fits-some (high type) (u16 n ++ params) t.0 t.1.1 in
    let l = Fits-some (low n) (some (high n) ∷ params) t'.0 t'.1.1 in
    let l' = Fits-some (high n) params l.0 l.1.1 in
    let w = l'.0 in
    let size : length w ≡ n = length-Fits params w l'.1.1 in
    let all : v ≡ low type ∷ high type ∷ low n ∷ high n ∷ w =
      t.1.0
      ∙ ap (λ r. low type ∷ r)
          (t'.1.0 ∙ ap (λ r. high type ∷ r) (l.1.0 ∙ ap (λ r. low n ∷ r) l'.1.0)) in
    let same : encode_attrs (record { type = type; value = w } ∷ [])
        ≡ low type ∷ high type ∷ low n ∷ high n ∷ w =
      rw (size, append-nil w) refl in
    (w, (all ∙ sym same, l'.1.1))

-- With room, the attribute follows the bytes before len, and the buffer keeps its size.
pub element_lem :
    (type : ℕ) (params : Layout) (buf : List ℕ) (len n : ℕ)
    → len + (4 + length params) ≤ length buf
    → (q : Built) × ((element type params buf len n ≡ ok q)
        × ((q.num_elements ≡ n + 1)
            × ((q.len ≡ 4 + length params)
                × ((length q.buf ≡ length buf)
                    × ((w : List ℕ) × ((take (len + q.len) q.buf
                            ≡ take len buf ++ encode_attrs (record { type = type; value = w } ∷ []))
                          × Fits params w))))))
unfolding element
element_lem type params buf len n room =
    let size = 4 + length params in
    let layout = u16 type ++ u16 (length params) ++ params in
    let rest = drop len buf in
    let tail = drop (length layout) rest in
    let left : length rest ≡ length buf - len = length-drop len buf in
    let put = overlay-Fits layout rest (omega arith) in
    let v = put.0 in
    let head = header type params v put.1.1 in
    let start = take len buf in
    let before : length start ≡ len = omega (arith, length-take len buf) in
    let vs : length v ≡ size = omega (arith, length-Fits layout v put.1.1) in
    let whole : start ++ overlay layout rest ≡ (start ++ v) ++ tail =
      ap (λ r. start ++ r) put.1.0 ∙ sym (append_assoc start v tail) in
    let count : length (start ++ v) ≡ len + size = omega (arith, length-append start v) in
    let total : length ((start ++ v) ++ tail) ≡ length buf =
      omega (arith, length-append (start ++ v) tail, length-drop (length layout) rest) in
    let most = extent_le params in
    let fits : ltb (length buf) (len + (4 + extent params)) ≡ false = ground arith in
    let q : Built = record {
      buf = start ++ overlay layout rest;
      num_elements = n + 1;
      len = size;
    } in
    let taken : take (len + size) (start ++ overlay layout rest) ≡ start ++ v =
      ap (λ b. take (len + size) b) whole
      ∙ ap (λ k. take k ((start ++ v) ++ tail)) (sym count)
      ∙ take-append (start ++ v) tail in
    (
      q,
      (
        rw fits refl,
        (
          refl,
          (
            refl,
            (ap length whole ∙ total, (head.0, (taken ∙ ap (λ b. start ++ b) head.1.0, head.1.1))),
          ),
        ),
      ),
    )

-- An element either writes behind the buffer, or it returns with the size of the struct, counted, and the
-- buffer keeps its size.
pub element_cases :
    (type : ℕ) (params : Layout) (buf : List ℕ) (len n : ℕ)
    → (element type params buf len n ≡ fault Fault.out_of_bounds)
      ⊎ ((len + (4 + extent params) ≤ length buf)
          × ((q : Built) × ((element type params buf len n ≡ ok q)
                × ((q.len ≡ 4 + length params) × (length q.buf ≡ length buf)))))
unfolding element
element_cases type params buf len n =
    let layout = u16 type ++ u16 (length params) ++ params in
    let rest = drop len buf in
    let start = take len buf in
    elim (Bool-cases (ltb (length buf) (len + (4 + extent params)))) [
      | inl short ↦ inl (rw short refl)
      | inr fits ↦
          let left = length-drop len buf in
          let before = length-take len buf in
          let kept = length-overlay layout rest in
          let joined = length-append start (overlay layout rest) in
          let q : Built = record {
            buf = start ++ overlay layout rest;
            num_elements = n + 1;
            len = 4 + length params;
          } in
          inr (ground arith, (q, (rw fits refl, (refl, omega arith))))
    ]
