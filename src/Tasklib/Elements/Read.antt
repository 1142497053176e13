-- ===== src/Tasklib/Elements/Read.antt =====
-- Reading the fields of a struct of mote/lib/tenet_task.h back from bytes that fit its layout.
use tenet_t.Prelude.{
  ℕ, zero, suc, ◌+◌, ◌*◌, ◌/◌, ◌%◌, ◌^◌, ◌≡◌, ◌∙◌, none, some, List, [], ◌∷◌, arith, get_elem?,
  get_or, u16_mod,
}
use tenet_t.Trd.Msg.{low, high}
use tenet_t.Transport.Routing.{u16_at}
use tenet_t.Tasklib.Elements.{Layout}
use tenet_t.Tasklib.Elements.Layout.{Fits}

abbrev pub u32_mod : ℕ
u32_mod = 2 ^ 32

abbrev pub u8_at : List ℕ → ℕ → ℕ
u8_at v i = get_or v i 0

abbrev pub u32_at : List ℕ → ℕ → ℕ
u32_at v i = u16_at v (i + 2) * u16_mod + u16_at v i

pub Fits-u8 :
    (layout : Layout) (v : List ℕ) (i b : ℕ)
    → Fits layout v
    → get_elem? layout i ≡ some (some b)
    → u8_at v i ≡ b
Fits-u8 [] v i b h at = absurd (ground arith)
Fits-u8 (x ∷ layout) [] i b h at = absurd h
Fits-u8 (some x ∷ layout) (y ∷ v) zero b h at = h.0 ∙ grind arith
Fits-u8 (none ∷ layout) (y ∷ v) zero b h at = absurd (grind arith)
Fits-u8 (some x ∷ layout) (y ∷ v) (suc i) b h at = Fits-u8 layout v i b h.1 at
Fits-u8 (none ∷ layout) (y ∷ v) (suc i) b h at = Fits-u8 layout v i b h at

pub Fits-u16 :
    (layout : Layout) (v : List ℕ) (i x : ℕ)
    → Fits layout v
    → get_elem? layout i ≡ some (some (low x))
    → get_elem? layout (i + 1) ≡ some (some (high x))
    → u16_at v i ≡ x % u16_mod
Fits-u16 layout v i x h at at' =
    let lo : get_or v i 0 ≡ low x = Fits-u8 layout v i (low x) h at in
    let hi : get_or v (i + 1) 0 ≡ high x = Fits-u8 layout v (i + 1) (high x) h at' in
    rw (lo, hi) (omega arith)

pub Fits-u32 :
    (layout : Layout) (v : List ℕ) (i x : ℕ)
    → Fits layout v
    → get_elem? layout i ≡ some (some (low x))
    → get_elem? layout (i + 1) ≡ some (some (high x))
    → get_elem? layout (i + 2) ≡ some (some (low (x / u16_mod)))
    → get_elem? layout (i + 2 + 1) ≡ some (some (high (x / u16_mod)))
    → u32_at v i ≡ x % u32_mod
Fits-u32 layout v i x h a b c d =
    rw (Fits-u16 layout v i x h a b, Fits-u16 layout v (i + 2) (x / u16_mod) h c d) (omega arith)
