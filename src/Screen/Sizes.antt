-- ===== src/Screen/Sizes.antt =====
-- The size that is chosen for the window.
use droidctl.Base.{
  ℕ, ◌+◌, ◌*◌, ◌/◌, ◌^◌, ◌≤◌, ◌<◌, ◌≡◌, ◌≢◌, refl, ap, sym, ◌∙◌, ◌⊎◌, inl, inr, min, Bool, true,
  false, ◌||◌, Option, none, some, Option-cases, ltb, ltb→lt, ltb_false→ge, ==_iff, eqb_ne,
  if◌then◌else◌, Bool-cases, arith,
}
use droidctl.Binary.{u16, u32}
use droidctl.Screen.{Size, get_preferred_display_bounds, is_optimal_size, get_optimal_size}
use mathlib.Core.Path.{subst}
use native.Mathlib.Nat.{
  mul-le-mul, div-le_of_le-mul, div-mul-le_self, lt-div-mul-add, mul_comm, add-mul,
}

-- The fields are of type `uint16_t`.
abbrev pub IsSize : Size → Type 0
IsSize s = (s.width < 2 ^ 16) × (s.height < 2 ^ 16)

product_fits : (a b : ℕ) → a < 2 ^ 16 → b < 2 ^ 16 → u32 (a * b) ≡ a * b
product_fits a b ha hb =
    omega
      (arith, mul-le-mul {n₁ = a} {m₁ = b} {n₂ = 65535} {m₂ = 65535} (omega arith) (omega arith))

-- One side of the window is the other, scaled by the sides of the content and rounded down.
abbrev pub IsScaled : ℕ → ℕ → ℕ → ℕ → Type 0
IsScaled side content other other_content =
    side * content ≤ other * other_content × other * other_content < (side + 1) * content

-- What a quotient that the code computes is.
quotient-IsScaled :
    (r content side other_content : ℕ)
    → content ≢ 0
    → r ≡ side * other_content / content
    → IsScaled r content side other_content
quotient-IsScaled r content side other_content set e = rw e (
  div-mul-le_self (side * other_content) content,
  omega (
    arith,
    lt-div-mul-add {a = side * other_content} {b = content} (omega arith),
    add-mul (side * other_content / content) 1 content,
  ),
)

-- One side of the window from the other, which is at most what it was.
scaled :
    (other side content other_content : ℕ)
    → side < 2 ^ 16
    → other_content < 2 ^ 16
    → other < 2 ^ 16
    → content < 2 ^ 16
    → content ≢ 0
    → u32 (other_content * side) ≤ u32 (content * other)
    → IsScaled (u16 (u32 (other_content * side) / content)) content side other_content
      × (u16 (u32 (other_content * side) / content) ≤ other)
scaled other side content other_content hs ho hw hc set h =
    let quotient : other_content * side / content ≤ other =
      div-le_of_le-mul content (
        omega
          (arith, h, product_fits other_content side ho hs, product_fits content other hc hw)) in
    let same : u32 (other_content * side) / content ≡ other_content * side / content =
      ap (λ n. n / content) (product_fits other_content side ho hs) in
    let turned : other_content * side / content ≡ side * other_content / content =
      ap (λ n. n / content) (mul_comm other_content side) in
    (
      quotient-IsScaled _ content side other_content set (omega (arith, quotient, same, turned)),
      omega (arith, quotient, same),
    )

-- What the code calls optimal.
optimal-IsScaled :
    (result content : Size)
    → IsSize result
    → IsSize content
    → content.width ≢ 0
    → content.height ≢ 0
    → is_optimal_size result content ≡ true
    → IsScaled result.height content.width result.width content.height
      ⊎ IsScaled result.width content.height result.height content.width
unfolding is_optimal_size
optimal-IsScaled result content r c w h e = elim (or_true _ _ e) [
  | inl by_width ↦ inl (
      quotient-IsScaled _ content.width result.width content.height w (
        (==_iff _ _).0 by_width
        ∙ ap (λ n. n / content.width) (product_fits result.width content.height r.0 c.1)))
  | inr by_height ↦ inr (
      quotient-IsScaled _ content.height result.height content.width h (
        (==_iff _ _).0 by_height
        ∙ ap (λ n. n / content.height) (product_fits result.height content.width r.1 c.0)))
]
  where
    or_true : (a b : Bool) → (a || b) ≡ true → (a ≡ true) ⊎ (b ≡ true)
    or_true true b e = inl refl
    or_true false b e = inr e

-- The size within the display, when it must be and when that is known.
abbrev pub limited : Option Size → Size → Size
limited none size = size
limited (some display) size = record {
  width = min size.width display.width;
  height = min size.height display.height;
}

abbrev pub bounds_of : Option Size → Bool → Option Size
bounds_of display within = if within then get_preferred_display_bounds display else none

-- At most the window, and in the proportions of the content.
pub record Fits (result window content : Size) : Type 0 where
  pub width_fits : result.width ≤ window.width
  pub height_fits : result.height ≤ window.height
  pub scaled_side :
      IsScaled result.height content.width result.width content.height
      ⊎ IsScaled result.width content.height result.height content.width
  -- One side is kept.
  pub kept : (result.width ≡ window.width) ⊎ (result.height ≡ window.height)

-- The choice, once the window is limited.
abbrev pick : Size → Size → Size
pick window content =
    if is_optimal_size window content
    then window
    else if ltb (u32 (content.height * window.width)) (u32 (content.width * window.height))
    then record window { height = u16 (u32 (content.height * window.width) / content.width) }
    else record window { width = u16 (u32 (content.width * window.height) / content.height) }

pick-Fits :
    (window content : Size)
    → IsSize window
    → IsSize content
    → content.width ≢ 0
    → content.height ≢ 0
    → Fits (pick window content) window content
pick-Fits window content w c cw ch = elim (Bool-cases (is_optimal_size window content)) [
  | inl e ↦ rw e (record {
    width_fits = omega arith;
    height_fits = omega arith;
    scaled_side = optimal-IsScaled window content w c cw ch e;
    kept = inl refl;
  })
  | inr e ↦
      rw e
        (elim (Bool-cases
          (ltb (u32 (content.height * window.width)) (u32 (content.width * window.height)))) [
            | inl lower ↦ rw lower (
                by_height (
                  scaled window.height window.width content.width content.height w.0 c.1 w.1 c.0 cw
                    (omega (arith, ltb→lt _ _ lower))))
            | inr narrower ↦ rw narrower (
                by_width (
                  scaled window.width window.height content.height content.width w.1 c.0 w.0 c.1 ch
                    (ltb_false→ge _ _ narrower)))
          ])
]
  where
    by_height :
        let height = u16 (u32 (content.height * window.width) / content.width) in
        IsScaled height content.width window.width content.height × (height ≤ window.height)
        → Fits (record window { height = height }) window content
    by_height (scaled_side, less) = record {
      width_fits = omega arith;
      height_fits = less;
      scaled_side = inl scaled_side;
      kept = inl refl;
    }

    by_width :
        let width = u16 (u32 (content.width * window.height) / content.height) in
        IsScaled width content.height window.height content.width × (width ≤ window.width)
        → Fits (record window { width = width }) window content
    by_width (scaled_side, less) = record {
      width_fits = less;
      height_fits = omega arith;
      scaled_side = inr scaled_side;
      kept = inr refl;
    }

get_optimal_size-pick :
    (display : Option Size) (current content : Size) (within : Bool)
    → content.width ≢ 0
    → content.height ≢ 0
    → get_optimal_size display current content within
      ≡ pick (limited (bounds_of display within) current) content
unfolding get_optimal_size
get_optimal_size-pick display current content within w h =
    elim (Option-cases (bounds_of display within)) [
      | inl e ↦ rw (e, eqb_ne content.width 0 w, eqb_ne content.height 0 h) refl
      | inr (b, e) ↦ rw (e, eqb_ne content.width 0 w, eqb_ne content.height 0 h) refl
    ]

limited-IsSize : (bounds : Option Size) (size : Size) → IsSize size → IsSize (limited bounds size)
limited-IsSize none size h = h
limited-IsSize (some display) size h = (omega (arith, h.0), omega (arith, h.1))

-- For a content that is not empty: the size chosen is at most the current one, and at most the
-- display when it must be; it keeps one side of that; and one of its sides is the other, scaled by
-- the proportions of the content and rounded down.
pub get_optimal_size-Fits :
    (display : Option Size) (current content : Size) (within : Bool)
    → IsSize current
    → IsSize content
    → content.width ≢ 0
    → content.height ≢ 0
    → Fits
        (get_optimal_size display current content within)
        (limited (bounds_of display within) current)
        content
get_optimal_size-Fits display current content within size c w h =
    subst (λ r. Fits r (limited (bounds_of display within) current) content)
      (sym (get_optimal_size-pick display current content within w h))
      (pick-Fits (limited (bounds_of display within) current) content
        (limited-IsSize (bounds_of display within) current size) c w h)
