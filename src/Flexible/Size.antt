-- ===== src/Flexible/Size.antt =====
-- The size macros: where the overflow test passes, the size is exact and holds the capacity.
use native.Mathlib.Nat.{mul-div_cancel, div-mul-le_self, mul-le-mul_right, div-lt_iff_lt-mul}
use dsa_c.Prelude.{
  ℕ, ◌+◌, ◌-◌, ◌*◌, ◌/◌, ◌≤◌, ◌<◌, ◌≡◌, ap, ◌∙◌, true, false, ltb, arith, ltb→ge, ltb→lt, lt→ltb,
  ge→ltb, Bool-cases, inl, inr, sym,
}
use dsa_c.Word.{uint32_max, sub_size}
use dsa_c.Flexible.{Layout, calc_sizeof, calc_sizeof_overflows, room_for}

module _ (l : Layout) (capacity : ℕ) (fits : capacity ≤ uint32_max) where
  block_bound :
      calc_sizeof_overflows l capacity ≡ false → l.offset + capacity * l.elem_size ≤ uint32_max
  unfolding calc_sizeof_overflows
  block_bound e =
      let room : ℕ = uint32_max - l.offset in
      let exact : sub_size uint32_max l.offset ≡ room = omega (arith, l.offset_fits) in
      let quotient : capacity ≤ room / l.elem_size = ltb→ge _ _ (rw exact at e) in
      omega (
        arith,
        l.offset_fits,
        mul-le-mul_right l.elem_size quotient,
        div-mul-le_self room l.elem_size,
      )

  too_large :
      calc_sizeof_overflows l capacity ≡ true → uint32_max < l.offset + capacity * l.elem_size
  unfolding calc_sizeof_overflows
  too_large e =
      let room : ℕ = uint32_max - l.offset in
      let exact : sub_size uint32_max l.offset ≡ room = omega (arith, l.offset_fits) in
      let quotient : room / l.elem_size < capacity = ltb→lt _ _ (rw exact at e) in
      omega (arith, l.offset_fits, (div-lt_iff_lt-mul {x = room} l.elem_size_pos).0 quotient)

  -- Where the test of the macro passes, no operation of `calc_sizeof` wraps.
  pub calc_sizeof-exact :
      calc_sizeof_overflows l capacity ≡ false
      → calc_sizeof l capacity ≡ l.offset + capacity * l.elem_size
  unfolding calc_sizeof
  calc_sizeof-exact e = omega (arith, block_bound e)

  pub room_for-calc_sizeof :
      calc_sizeof_overflows l capacity ≡ false → room_for l (calc_sizeof l capacity) ≡ capacity
  unfolding room_for
  room_for-calc_sizeof e =
      let size : calc_sizeof l capacity - l.offset ≡ capacity * l.elem_size =
        omega (arith, calc_sizeof-exact e) in
      ap (λ (n : ℕ). n / l.elem_size) size ∙ mul-div_cancel capacity l.elem_size_pos

  -- The test of the macro is exact: it fires where the size would not fit 32 bits.
  pub calc_sizeof_overflows-exact :
      calc_sizeof_overflows l capacity ≡ ltb uint32_max (l.offset + capacity * l.elem_size)
  calc_sizeof_overflows-exact = elim (Bool-cases (calc_sizeof_overflows l capacity)) [
    | inl e ↦ e ∙ sym (lt→ltb _ _ (too_large e))
    | inr e ↦ e ∙ sym (ge→ltb _ _ (block_bound e))
  ]
