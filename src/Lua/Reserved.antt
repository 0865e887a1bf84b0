-- ===== src/Lua/Reserved.antt =====
-- src/emit_lua.c: what `lua_ident` makes of a name is a Lua name.
use parena.Prelude.{
  ℕ, ◌≡◌, refl, ap, ◌∙◌, Bool, true, false, not, ◌&&◌, List, [], ◌∷◌, ◌++◌, arith, ◌==◌,
  if◌then◌else◌, if_cases, Bytes, bytes_eq, c_str,
}
use parena.Lua.Names.{upper, camel_loop, camel_case, lua_reserved, is_listed, lua_ident}

abbrev ends_in_other : Bytes → Bool
ends_in_other [] = true
ends_in_other (x ∷ []) = not (x == b'_')
ends_in_other (x ∷ y ∷ ys) = ends_in_other (y ∷ ys)

abbrev all_end_in_other : List Bytes → Bool
all_end_in_other [] = true
all_end_in_other (w ∷ ws) = ends_in_other w && all_end_in_other ws

reserved_end : all_end_in_other lua_reserved ≡ true
reserved_end = refl

no_and : (b : Bool) → (b && false) ≡ false
no_and true = refl
no_and false = refl

underscore_differs : (c w : Bytes) → ends_in_other w ≡ true → bytes_eq (c ++ (b'_' ∷ [])) w ≡ false
unfolding bytes_eq
underscore_differs [] [] h = refl
underscore_differs [] (x ∷ []) h = let n : (b'_' == x) ≡ false = ground arith in rw n
underscore_differs [] (x ∷ y ∷ w) h = no_and (b'_' == x)
underscore_differs (d ∷ []) [] h = refl
underscore_differs (d ∷ c ∷ cs) [] h = refl
underscore_differs (d ∷ []) (x ∷ []) h = no_and (d == x)
underscore_differs (d ∷ c ∷ cs) (x ∷ []) h = no_and (d == x)
underscore_differs (d ∷ cs) (x ∷ y ∷ w) h =
    ap (λ b. d == x && b) (underscore_differs cs (y ∷ w) h) ∙ no_and (d == x)

not_listed :
    (ws : List Bytes) (c : Bytes)
    → all_end_in_other ws ≡ true
    → is_listed ws (c ++ (b'_' ∷ [])) ≡ false
unfolding is_listed
not_listed [] c h = refl
not_listed (w ∷ ws) c h =
    let (h1, h2) = both (ends_in_other w) (all_end_in_other ws) h in
    rw (underscore_differs c w h1, not_listed ws c h2) refl
  where
    both : (a b : Bool) → (a && b) ≡ true → (a ≡ true) × (b ≡ true)
    both a b e = ground arith

-- No byte of the text is a dash.
abbrev pub NoDash : Bytes → Type 0
NoDash [] = Unit
NoDash (c ∷ cs) = ((c == b'-') ≡ false) × NoDash cs

NoDash-snoc : (x : Bytes) → NoDash x → NoDash (x ++ (b'_' ∷ []))
NoDash-snoc [] h = (refl, tt)
NoDash-snoc (c ∷ cs) h = (h.0, NoDash-snoc cs h.1)

upper-dash : (b : Bool) (c : ℕ) → (c == b'-') ≡ false → ((if b then upper c else c) == b'-') ≡ false
upper-dash true c h = ground arith
upper-dash false c h = h

camel_loop-NoDash : (x : Bytes) (b : Bool) → NoDash (camel_loop x b)
unfolding camel_loop
camel_loop-NoDash [] b = tt
camel_loop-NoDash (c ∷ cs) b =
    if_cases NoDash (c == b'-') (λ _. camel_loop-NoDash cs true)
      (λ n. (upper-dash b c n, camel_loop-NoDash cs false))

-- A name as Lua takes it: no word of the language, and free of dashes.
pub record IsName (x : Bytes) : Type 0 where
  pub free : is_listed lua_reserved x ≡ false
  pub no_dash : NoDash x

-- Whatever the name in the source, the identifier that is emitted for it is no reserved word and has
-- no dash.
pub lua_ident-IsName : (kebab : Bytes) → IsName (lua_ident kebab)
unfolding lua_ident camel_case
lua_ident-IsName kebab =
    let plain = camel_loop-NoDash (c_str kebab) false in
    if_cases IsName (is_listed lua_reserved (camel_case kebab))
      (λ _. record {
        free = not_listed lua_reserved (camel_case kebab) reserved_end;
        no_dash = NoDash-snoc (camel_case kebab) plain;
      })
      (λ n. record { free = n; no_dash = plain })
