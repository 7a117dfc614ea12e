-- ===== src/Vectors/Spread.antt =====
-- The loop of `my_readv` hands out what is in its buffer in order.
use tlpi_practice.Common.{
  ℕ, ◌+◌, ◌-◌, ◌≤◌, ◌≡◌, refl, sym, ap, ◌∙◌, true, false, inl, inr, List, [], ◌∷◌, ◌++◌, arith, ltb,
  length, Bool-cases, length-append, take-append-drop, take, drop,
}
use mathlib.Core.List.{append_assoc, append-nil, flatten}
use tlpi_practice.Common.Disk.{Bytes}
use tlpi_practice.Common.Slices
use tlpi_practice.Common.Slices.{overlay-append_left, overlay-zero}
use tlpi_practice.Vectors.{total_space, scatter}

-- The entry `v` has room for the rest `d`, and takes all of it.
pub scatter_last :
    (v pre d junk : Bytes) (vs : List Bytes) (total ind : ℕ)
    → ind ≡ length pre
    → total ≡ length pre + length d
    → ltb ind total ≡ true
    → ltb (length v) (total - ind) ≡ false
    → scatter total (pre ++ (d ++ junk)) ind (v ∷ vs)
      ≡ (d ++ drop (length d) v) ∷ scatter total (pre ++ (d ++ junk)) total vs
unfolding scatter
scatter_last v pre d junk vs total ind h e more large =
    let left : total - ind ≡ length d = omega arith in
    let next : ind + length d ≡ total = omega arith in
    rw (
      more,
      large,
      left,
      Slices.drop-append pre (d ++ junk) ind h,
      Slices.take-append d junk (length d) refl,
      overlay-zero v d,
      next,
    )

-- The entry `v` takes the part `d` of the rest, and is full.
pub scatter_full :
    (v pre d rest : Bytes) (vs : List Bytes) (total ind : ℕ)
    → ind ≡ length pre
    → length v ≡ length d
    → ltb ind total ≡ true
    → ltb (length v) (total - ind) ≡ true
    → scatter total (pre ++ (d ++ rest)) ind (v ∷ vs)
      ≡ d ∷ scatter total ((pre ++ d) ++ rest) (ind + length d) vs
unfolding scatter
scatter_full v pre d rest vs total ind h e more small =
    let all = Slices.drop-all v (length d) (omega arith) in
    rw (
      more,
      small,
      e,
      Slices.drop-append pre (d ++ rest) ind h,
      Slices.take-append d rest (length d) refl,
      overlay-zero v d,
      all,
      append-nil d,
      append_assoc pre d rest,
    )

pub nil_of_length : (bs : Bytes) → length bs ≡ 0 → bs ≡ []
nil_of_length [] h = refl
nil_of_length (b ∷ bs) h = absurd (omega arith)

pub join_full :
    (v d₁ d₂ rest : Bytes)
    → length v ≡ length d₁
    → d₁ ++ (d₂ ++ drop (length d₂) rest) ≡ (d₁ ++ d₂) ++ drop (length (d₁ ++ d₂)) (v ++ rest)
join_full v d₁ d₂ rest e =
    rw
      (Slices.drop-append_ge v rest (length (d₁ ++ d₂)) (length d₂)
        (omega (arith, length-append d₁ d₂)))
      (sym (append_assoc d₁ d₂ (drop (length d₂) rest)))

-- `pre` has been handed out, `d` is still to go, and `junk` is the rest of the buffer.
abbrev pub Scatters : List Bytes → Type 0
Scatters iov =
    (pre d junk : Bytes) (total ind : ℕ)
    → ind ≡ length pre
    → total ≡ length pre + length d
    → length d ≤ total_space iov
    → flatten (scatter total (pre ++ (d ++ junk)) ind iov) ≡ d ++ drop (length d) (flatten iov)

pub Scatters-full :
    (v : Bytes) (vs : List Bytes) (pre d₁ d₂ junk : Bytes) (total ind : ℕ)
    → Scatters vs
    → ind ≡ length pre
    → total ≡ length pre + length (d₁ ++ d₂)
    → length (d₁ ++ d₂) ≤ total_space (v ∷ vs)
    → length v ≡ length d₁
    → ltb ind total ≡ true
    → ltb (length v) (total - ind) ≡ true
    → flatten (scatter total (pre ++ ((d₁ ++ d₂) ++ junk)) ind (v ∷ vs))
      ≡ (d₁ ++ d₂) ++ drop (length (d₁ ++ d₂)) (flatten (v ∷ vs))
unfolding flatten
Scatters-full v vs pre d₁ d₂ junk total ind later h e fits len more small =
    ap (λ b. flatten (scatter total (pre ++ b) ind (v ∷ vs))) (append_assoc d₁ d₂ junk)
    ∙ ap flatten (scatter_full v pre d₁ (d₂ ++ junk) vs total ind h len more small)
    ∙ ap (◌++◌ d₁) (
        later (pre ++ d₁) d₂ junk total (ind + length d₁) (omega (arith, length-append pre d₁))
          (omega (arith, length-append pre d₁, length-append d₁ d₂))
          (unfold total_space in omega (arith, length-append d₁ d₂)))
    ∙ join_full v d₁ d₂ (flatten vs) len

pub Scatters-last :
    (v : Bytes) (vs : List Bytes) (pre d junk : Bytes) (total ind : ℕ)
    → Scatters vs
    → ind ≡ length pre
    → total ≡ length pre + length d
    → ltb ind total ≡ true
    → ltb (length v) (total - ind) ≡ false
    → flatten (scatter total (pre ++ (d ++ junk)) ind (v ∷ vs))
      ≡ d ++ drop (length d) (flatten (v ∷ vs))
unfolding flatten
Scatters-last v vs pre d junk total ind later h e more large =
    let fits : length d ≤ length v = ground arith in
    ap flatten (scatter_last v pre d junk vs total ind h e more large)
    ∙ ap (λ b. (d ++ drop (length d) v) ++ flatten (scatter total b total vs))
        (sym (append_assoc pre d junk))
    ∙ ap (◌++◌ (d ++ drop (length d) v)) (
        later (pre ++ d) [] junk total total (omega (arith, length-append pre d))
          (omega (arith, length-append pre d)) (omega arith))
    ∙ rw (Slices.drop-append_le v (flatten vs) (length d) fits)
        (append_assoc d (drop (length d) v) (flatten vs))

pub scatter-flatten : (iov : List Bytes) → Scatters iov
scatter-flatten [] pre d junk total ind h e fits =
    unfold scatter flatten total_space in rw (nil_of_length d (omega arith))
scatter-flatten (v ∷ vs) pre d junk total ind h e fits = elim (Bool-cases (ltb ind total)) [
  | inl more ↦ elim (Bool-cases (ltb (length v) (total - ind))) [
    | inl small ↦
        let whole = take-append-drop (length v) d in
        let len = Slices.length-take_le d (length v) (ground arith) in
        rw whole at (
          Scatters-full v vs pre (take (length v) d) (drop (length v) d) junk total ind
            (scatter-flatten vs) h (rw whole e) (rw whole fits) (sym len) more small)
    | inr large ↦ Scatters-last v vs pre d junk total ind (scatter-flatten vs) h e more large
  ]
  | inr done ↦
      let none_left : d ≡ [] = nil_of_length d (ground arith) in
      rw none_left (unfold scatter flatten in rw done)
]
