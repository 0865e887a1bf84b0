-- ===== src/EmitC/Tests.antt =====
-- src/emit.c: a pointer to a function pointer, a pointer to a struct, and a type that is too long.
use parena.Prelude.{true, ◌≡◌, refl, ◌∷◌, Bytes, codes, arith}
use parena.EmitC.Declarators.{
  find_paren, count_stars, find_fnptr_star_group, ends_in_star, is_pointer_c_type, format_c_decl,
  format_c_type_ptr, format_c_decl_ptr,
}
use parena.EmitC.Pointers.{declared, stars_of, format_c_decl_ptr-declared}

abbrev hook : Bytes
hook = codes "void (*)(int)"

hook_declared : format_c_decl hook (codes "h") ≡ codes "void (*h)(int)"
unfolding format_c_decl find_fnptr_star_group find_paren count_stars
hook_declared = refl

hook_pointer : format_c_decl_ptr hook (codes "h") ≡ codes "void (**h)(int)"
unfolding format_c_decl_ptr format_c_decl format_c_type_ptr find_fnptr_star_group find_paren
    count_stars
hook_pointer = refl

point_pointer : format_c_decl_ptr (codes "Point") (codes "p") ≡ codes "Point *p"
unfolding format_c_decl_ptr format_c_decl format_c_type_ptr find_fnptr_star_group find_paren
    count_stars ends_in_star
point_pointer = refl

hook_stars : stars_of (find_fnptr_star_group hook) ≡ 1
unfolding find_fnptr_star_group find_paren count_stars
hook_stars = refl

-- Seven stars and one more are seven stars.
stars_lost : format_c_type_ptr (codes "void (*******)(int)") ≡ codes "void (*******)(int)"
unfolding format_c_type_ptr find_fnptr_star_group find_paren count_stars
stars_lost = refl

format_c_decl_ptr-declared_example :
    (is_pointer_c_type (format_c_type_ptr hook) ≡ true)
    × (format_c_decl_ptr hook (codes "h") ≡ declared hook (b'*' ∷ codes "h"))
format_c_decl_ptr-declared_example =
    format_c_decl_ptr-declared hook (codes "h") (omega arith) (omega (arith, hook_stars))
