-- ===== src/EmitC/Declarators.antt =====
-- src/emit.c: the declaration of a name with a C type. A text is what stands before its NUL.
use parena.Prelude.{
  ℕ, ◌+◌, suc, Bool, true, false, ◌&&◌, [], ◌∷◌, ◌++◌, Option, none, some, ◌==◌, ltb, if◌then◌else◌,
  Bytes, codes, take, replicate,
}

abbrev pub is_star_head : Bytes → Bool
is_star_head [] = false
is_star_head (c ∷ cs) = c == b'*'

abbrev pub behind : ℕ → Option (Bytes × Bytes) → Option (Bytes × Bytes)
behind c none = none
behind c (some (before, rest)) = some (c ∷ before, rest)

-- `strstr(c_type, "(*")`: what stands before the bracket and behind it.
unfoldable pub find_paren : Bytes → Option (Bytes × Bytes)
find_paren [] = none
find_paren (c ∷ cs) =
    if c == b'(' && is_star_head cs then some ([], cs) else behind c (find_paren cs)

abbrev pub one_more : (ℕ × Bytes) → (ℕ × Bytes)
one_more (stars, p) = (suc stars, p)

unfoldable pub count_stars : Bytes → ℕ × Bytes
count_stars [] = (0, [])
count_stars (c ∷ cs) = if c == b'*' then one_more (count_stars cs) else (0, c ∷ cs)

-- The prefix, the number of stars, and the suffix.
abbrev pub StarGroup : Type 0
StarGroup = Bytes × (ℕ × Bytes)

abbrev pub closed : Bytes → (ℕ × Bytes) → Option StarGroup
closed before (stars, []) = none
closed before (stars, c ∷ suffix) = if c == b')' then some (before, (stars, suffix)) else none

abbrev pub in_paren : Option (Bytes × Bytes) → Option StarGroup
in_paren none = none
in_paren (some (before, rest)) = closed before (count_stars rest)

unfoldable pub find_fnptr_star_group : Bytes → Option StarGroup
find_fnptr_star_group c_type = in_paren (find_paren c_type)

unfoldable pub ends_in_star : Bytes → Bool
ends_in_star [] = false
ends_in_star (c ∷ []) = c == b'*'
ends_in_star (c ∷ d ∷ cs) = ends_in_star (d ∷ cs)

abbrev pub is_some : Option StarGroup → Bool
is_some none = false
is_some (some g) = true

unfoldable pub is_pointer_c_type : Bytes → Bool
is_pointer_c_type c_type =
    if ends_in_star c_type then true else is_some (find_fnptr_star_group c_type)

-- `snprintf` into a buffer of 256 bytes.
abbrev pub printed : Bytes → Bytes
printed text = take 255 text

-- `stars_buf` has room for 7.
abbrev pub star_text : ℕ → Bytes
star_text stars = replicate (if ltb stars 7 then stars else 7) b'*'

abbrev pub decl_text : Bytes → Bytes → Option StarGroup → Bytes
decl_text c_type name none =
    printed (c_type ++ ((if ends_in_star c_type then [] else codes " ") ++ name))
decl_text c_type name (some (before, (stars, suffix))) =
    printed (before ++ (codes "(" ++ (star_text stars ++ (name ++ (codes ")" ++ suffix)))))

unfoldable pub format_c_decl : Bytes → Bytes → Bytes
format_c_decl c_type name = decl_text c_type name (find_fnptr_star_group c_type)

abbrev pub type_ptr_text : Bytes → Option StarGroup → Bytes
type_ptr_text c_type none = printed (c_type ++ codes " *")
type_ptr_text c_type (some (before, (stars, suffix))) =
    printed (before ++ (codes "(" ++ (star_text (stars + 1) ++ (codes ")" ++ suffix))))

unfoldable pub format_c_type_ptr : Bytes → Bytes
format_c_type_ptr c_type = type_ptr_text c_type (find_fnptr_star_group c_type)

unfoldable pub format_c_decl_ptr : Bytes → Bytes → Bytes
format_c_decl_ptr c_type name = format_c_decl (format_c_type_ptr c_type) name
