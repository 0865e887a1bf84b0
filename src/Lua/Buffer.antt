-- ===== src/Lua/Buffer.antt =====
-- src/emit_lua.c: `LuaBuf`, a string that grows. Its bytes are those before the NUL; the heap does not
-- run out, which the source does not check.
use parena.Prelude.{
  ℕ, ◌+◌, ◌≤◌, ◌^◌, ◌≡◌, [], ◌++◌, arith, ltb, if◌then◌else◌, if_cases, Bytes, length,
  length-append, c_str, doubled, doubled_enough,
}

pub record LuaBuf : Type 0 where
  pub text : Bytes
  pub cap : ℕ

unfoldable pub lb_init : LuaBuf
lb_init = record { text = []; cap = 256 }

-- The capacity for `need` bytes.
abbrev pub grown : ℕ → ℕ → ℕ
grown capacity need = if ltb capacity need then doubled 64 capacity need else capacity

unfoldable pub lb_append : LuaBuf → Bytes → LuaBuf
lb_append b s = record {
  text = b.text ++ c_str s;
  cap = grown b.cap (length b.text + length (c_str s) + 1);
}

-- The text and the NUL behind it lie in the buffer, which is not empty.
pub record IsBuf (b : LuaBuf) : Type 0 where
  pub positive : 1 ≤ b.cap
  pub fits : length b.text + 1 ≤ b.cap

grown_enough : (c need : ℕ) → 1 ≤ c → need ≤ 2 ^ 63 → (need ≤ grown c need) × (1 ≤ grown c need)
grown_enough c need pos h =
    let k = doubled_enough c need pos h in
    if_cases (λ x. (need ≤ x) × (1 ≤ x)) (ltb c need) (λ l. (k, ground arith))
      (λ l. (ground arith, pos))

length-append_text : (a b : Bytes) → length (a ++ b) ≡ length a + length b
length-append_text = length-append

-- An append keeps the text and its NUL inside the buffer, whether the buffer grows or not, while the
-- text stays below half the address space.
pub lb_append-IsBuf :
    (b : LuaBuf) (s : Bytes)
    → IsBuf b
    → length b.text + length (c_str s) + 1 ≤ 2 ^ 63
    → IsBuf (lb_append b s)
unfolding lb_append
lb_append-IsBuf b s ok h =
    let (enough, pos) = grown_enough b.cap (length b.text + length (c_str s) + 1) ok.positive h in
    record { positive = pos; fits = omega (arith, enough, length-append_text b.text (c_str s)) }
