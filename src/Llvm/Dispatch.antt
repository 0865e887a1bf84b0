-- ===== src/Llvm/Dispatch.antt =====
-- src/emit_llvm.c: which of its cases `emit_llvm_expr` takes by the head of a form.
use parena.Prelude.{
  Bool, true, false, ◌||◌, ◌≡◌, refl, ◌∙◌, List, [], ◌∷◌, Option, none, some, if◌then◌else◌, Bytes,
  codes, c_str, bytes_eq, strcmp_eq, arith, Bool-cases, Option-cases, inl, inr,
}
use parena.Lua.Names.{find_entry}
use parena.Sugar.Core.{bytes_eq-eq}
use parena.Llvm.Speculation.{
  arith_table, find_arith, find_cmp, is_found, is_arith_or_cmp_head, head_may_trap,
}

-- The case, with the row of its table.
pub data Form : Type 0 where
  an_if negation another : Form
  connective : Bytes → Form
  comparison : Bytes → Bytes → Form
  operation : Bytes → Option Bytes → Form

abbrev and_or : Bytes → Form
and_or h =
    if strcmp_eq h (codes "and")
    then connective (codes "and")
    else if strcmp_eq h (codes "or")
    then connective (codes "or")
    else another

abbrev arith_form : Bytes → Option (Bytes × Option Bytes) → Form
arith_form h none = and_or h
arith_form h (some (i32_op, f64_op)) = operation i32_op f64_op

abbrev cmp_form : Bytes → Option (Bytes × Bytes) → Form
cmp_form h none = arith_form h (find_arith h)
cmp_form h (some (icmp_cc, fcmp_cc)) = comparison icmp_cc fcmp_cc

unfoldable pub form_of : Bytes → Form
form_of h =
    if strcmp_eq h (codes "if")
    then an_if
    else if strcmp_eq h (codes "not")
    then negation
    else cmp_form h (find_cmp h)

-- The opcodes that end the program on a divisor of 0, and on the least integer over -1.
unfoldable pub opcode_traps : Bytes → Bool
opcode_traps op = bytes_eq op (codes "sdiv") || bytes_eq op (codes "srem")

-- A form that is an operator or `if`, and does not trap.
abbrev pub IsTotal : Form → Type 0
IsTotal an_if = Unit
IsTotal negation = Unit
IsTotal (connective op) = Unit
IsTotal another = ⊥
IsTotal (comparison icmp_cc fcmp_cc) = Unit
IsTotal (operation i32_op f64_op) = opcode_traps i32_op ≡ false

abbrev row_traps : Option (Bytes × Option Bytes) → Bool
row_traps none = false
row_traps (some (i32_op, f64_op)) = opcode_traps i32_op

-- In each row `head_may_trap` tells whether the opcode traps.
abbrev AllAgree : List (Bytes × (Bytes × Option Bytes)) → Type 0
AllAgree [] = Unit
AllAgree ((k, v) ∷ rows) = (row_traps (some v) ≡ head_may_trap k) × AllAgree rows

arith_table-AllAgree : AllAgree arith_table
unfolding opcode_traps head_may_trap strcmp_eq c_str bytes_eq
arith_table-AllAgree =
    (refl, (refl, (refl, (refl, (refl, (refl, (refl, (refl, (refl, (refl, (refl, tt)))))))))))

-- The test reads no more of a name than `strcmp` does.
head_may_trap_same : (k h : Bytes) → strcmp_eq k h ≡ true → head_may_trap k ≡ head_may_trap h
unfolding head_may_trap strcmp_eq
head_may_trap_same k h e = rw (bytes_eq-eq (c_str k) (c_str h) e) refl

find_entry-traps :
    (rows : List (Bytes × (Bytes × Option Bytes))) (h : Bytes)
    → AllAgree rows
    → head_may_trap h ≡ false
    → row_traps (find_entry rows h) ≡ false
unfolding find_entry
find_entry-traps [] h a t = refl
find_entry-traps ((k, v) ∷ rows) h a t = elim (Bool-cases (strcmp_eq k h)) [
  | inl e ↦ rw e (a.0 ∙ (head_may_trap_same k h e ∙ t))
  | inr e ↦ rw e (find_entry-traps rows h a.1 t)
]

and_or-IsTotal :
    (h : Bytes)
    → (strcmp_eq h (codes "and") || (strcmp_eq h (codes "or") || false)) ≡ true
    → IsTotal (and_or h)
and_or-IsTotal h a = elim (Bool-cases (strcmp_eq h (codes "and"))) [
  | inl e ↦ rw e tt
  | inr e ↦ elim (Bool-cases (strcmp_eq h (codes "or"))) [
    | inl o ↦ rw (e, o) tt
    | inr o ↦ absurd (ground arith)
  ]
]

arith_form-IsTotal :
    (h : Bytes) (row : Option (Bytes × Option Bytes))
    → row_traps row ≡ false
    → (is_found row || (strcmp_eq h (codes "and") || (strcmp_eq h (codes "or") || false))) ≡ true
    → IsTotal (arith_form h row)
arith_form-IsTotal h none t a = and_or-IsTotal h a
arith_form-IsTotal h (some (i, f)) t a = t

pub form_of-IsTotal :
    (h : Bytes) → is_arith_or_cmp_head h ≡ true → head_may_trap h ≡ false → IsTotal (form_of h)
unfolding form_of is_arith_or_cmp_head
form_of-IsTotal h a t = elim (Bool-cases (strcmp_eq h (codes "if"))) [
  | inl i ↦ rw i tt
  | inr i ↦ elim (Bool-cases (strcmp_eq h (codes "not"))) [
    | inl n ↦ rw (i, n) tt
    | inr n ↦ elim (Option-cases (find_cmp h)) [
      | inr (c, q) ↦ rw (i, n, q) tt
      | inl q ↦
          rw (i, n, q)
            (arith_form-IsTotal h (find_arith h)
              (find_entry-traps arith_table h arith_table-AllAgree t) (rw (i, n, q) at a))
    ]
  ]
]
