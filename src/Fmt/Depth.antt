-- ===== src/Fmt/Depth.antt =====
-- Blanks at the end of a line do not move the depth, in code or in a string.
use parena.Prelude.{ℕ, ◌≡◌, refl, ◌∙◌, sym, true, [], ◌∷◌, ◌==◌, Bool-cases, Bytes, inl, inr}
use parena.Fmt.Lines.{is_trailing, step_depth, scan_line_body, scan_string, drop_trailing, trim_end}
use parena.Fmt.Stable.{blank_depth, blank_code}

abbrev SameCode : Bytes → Bytes → Type 0
SameCode r x = (d : ℕ) → scan_line_body r d ≡ scan_line_body x d

abbrev SameString : Bytes → Bytes → Type 0
SameString r x = (d : ℕ) → scan_string r d ≡ scan_string x d

code_cons : (c : ℕ) (r cs : Bytes) → SameCode r cs → SameString r cs → SameCode (c ∷ r) (c ∷ cs)
unfolding scan_line_body
code_cons c r cs hc hs d = elim (Bool-cases (c == b';')) [
  | inl e ↦ rw e
  | inr n ↦ elim (Bool-cases (c == 34)) [
    | inl e ↦ rw (n, e) (hs d)
    | inr m ↦ rw (n, m) (hc (step_depth c d))
  ]
]

code_blank :
    (c : ℕ) (cs : Bytes) (d : ℕ)
    → is_trailing c ≡ true
    → scan_line_body (c ∷ cs) d ≡ scan_line_body cs d
unfolding scan_line_body
code_blank c cs d t = let (n1, n2, n3) = blank_code c t in rw (n1, n2, blank_depth c d t)

code_step :
    (c : ℕ) (r cs : Bytes) → SameCode r cs → SameString r cs → SameCode (drop_trailing c r) (c ∷ cs)
code_step c [] cs hc hs d = elim (Bool-cases (is_trailing c)) [
  | inl t ↦ rw t (hc d ∙ sym (code_blank c cs d t))
  | inr f ↦ rw f (code_cons c [] cs hc hs d)
]
code_step c (e ∷ r) cs hc hs d = code_cons c (e ∷ r) cs hc hs d

string_cons :
    (c e : ℕ) (r cs : Bytes)
    → SameCode (e ∷ r) (e ∷ cs)
    → SameString (e ∷ r) (e ∷ cs)
    → SameString r cs
    → SameString (c ∷ e ∷ r) (c ∷ e ∷ cs)
unfolding scan_line_body
string_cons c e r cs hc hs ht d = elim (Bool-cases (c == 34)) [
  | inl q ↦ rw q (hc d)
  | inr n ↦ elim (Bool-cases (c == b'\\')) [ inl q ↦ rw (n, q) (ht d) | inr m ↦ rw (n, m) (hs d) ]
]

-- A string whose rest is blank leaves the depth.
string_blank :
    (c e : ℕ) (cs : Bytes) (d : ℕ)
    → SameCode [] (e ∷ cs)
    → SameString [] (e ∷ cs)
    → SameString [] cs
    → scan_string (c ∷ e ∷ cs) d ≡ d
unfolding scan_line_body
string_blank c e cs d hc hs ht = elim (Bool-cases (c == 34)) [
  | inl q ↦ rw q (sym (hc d))
  | inr n ↦ elim (Bool-cases (c == b'\\')) [
    | inl q ↦ rw (n, q) (sym (ht d))
    | inr m ↦ rw (n, m) (sym (hs d))
  ]
]

string_one : (c d : ℕ) → scan_string (drop_trailing c []) d ≡ d
unfolding scan_line_body
string_one c d = elim (Bool-cases (is_trailing c)) [ inl t ↦ rw t | inr f ↦ rw f ]

string_step :
    (c e : ℕ) (r cs : Bytes)
    → SameCode (drop_trailing e r) (e ∷ cs)
    → SameString (drop_trailing e r) (e ∷ cs)
    → SameString r cs
    → SameString (drop_trailing c (drop_trailing e r)) (c ∷ e ∷ cs)
string_step c e (x ∷ r) cs hc hs ht d = string_cons c e (x ∷ r) cs hc hs ht d
string_step c e [] cs hc hs ht d = elim (Bool-cases (is_trailing e)) [
  | inl t ↦ rw t (string_one c d ∙ sym (string_blank c e cs d (rw t at hc) (rw t at hs) ht))
  | inr f ↦ rw f (string_cons c e [] cs (rw f at hc) (rw f at hs) ht d)
]

mutual
  unfolding trim_end scan_line_body

  code-trim_end : (x : Bytes) (d : ℕ) → scan_line_body (trim_end x) d ≡ scan_line_body x d
  code-trim_end [] d = refl
  code-trim_end (c ∷ cs) d = code_step c (trim_end cs) cs (code-trim_end cs) (string-trim_end cs) d

  string-trim_end : (x : Bytes) (d : ℕ) → scan_string (trim_end x) d ≡ scan_string x d
  string-trim_end [] d = refl
  string-trim_end (c ∷ []) d = string_one c d
  string-trim_end (c ∷ e ∷ cs) d =
      string_step c e (trim_end cs) cs (code-trim_end (e ∷ cs)) (string-trim_end (e ∷ cs))
        (string-trim_end cs) d

pub scan-trim_end : (x : Bytes) (d : ℕ) → scan_line_body (trim_end x) d ≡ scan_line_body x d
scan-trim_end x d = code-trim_end x d
