-- ===== src/CompilerArena/Tests.antt =====
-- A run of the compiler's arena over a heap that counts its free bytes.
use parena.Prelude.{
  none-some, some-inj, replicate, length-replicate, ℕ, ◌-◌, ◌≡◌, inl, inr, sym, ap, [], Option,
  none, some, arith, leb, if◌then◌else◌, Bytes, codes, length, Bool-cases,
}
use parena.CompilerArena.Alloc.{arena_strdup}
use parena.CompilerArena.Copies.{Copied, Exits, arena_strdup-Copied}

abbrev counting_malloc : ℕ → ℕ → Option (Bytes × ℕ)
counting_malloc free n = if leb n free then some (replicate n 0, free - n) else none

counting_malloc-gives :
    (free n : ℕ) (bytes : Bytes) (free' : ℕ)
    → counting_malloc free n ≡ some (bytes, free')
    → length bytes ≡ n
counting_malloc-gives free n bytes free' e = elim (Bool-cases (leb n free)) [
  | inl r ↦ rw (sym (ap (λ x. x.0) (some-inj (rw r at e)))) (length-replicate n 0)
  | inr r ↦ absurd (none-some (rw r at e))
]

arena_strdup-Copied_example :
    Exits counting_malloc 100000
      (λ p a'. Copied [] (codes "defn") p a')
      (arena_strdup counting_malloc [] 100000 (codes "defn"))
arena_strdup-Copied_example =
    arena_strdup-Copied counting_malloc counting_malloc-gives [] 100000 (codes "defn") (omega arith)
      tt
