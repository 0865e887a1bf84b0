-- ===== src/Emit/Tests.antt =====
-- Runs of src/emit_lua.c and src/emit_java.c on whole programs.
use parena.Prelude.{◌≡◌, refl, [], ◌++◌, Bytes, codes, c_str, strcmp_eq, bytes_eq}
use parena.Ast.{
  children_of, Node, node, nil, cons, list, vec, map, symbol, keyword, string, number, colon,
}
use parena.Emit.Out.{failed, emitted, args_text}
use parena.Emit.Forms.{is_call_named, is_metadata, target_value, inline_source}
use parena.Emit.Source.{find_source}
use parena.Emit.Top.{IsRefused, form_text, emit_forms}
use parena.Lua.Names.{find_entry, lua_ident, camel_case, camel_loop, is_listed}
use parena.Lua.Definitions.{IsDefn}
use parena.Lua.Text.{unsupported_form, binop_text, fold_text, symbol_text}
use parena.Lua.Expr.{form_text as lua_form_text, emit_lua_expr}
use parena.Lua.Whole.{emit_lua_iff}
use parena.Lua.Module.{
  param_text, body_text, find_target_lua_src, emit_lua_defn, module_header, emit_lua,
}

abbrev name : Bytes → Node
name s = node symbol 1 s nil

-- (hp : I32)
abbrev param : Bytes → Node
param s =
    node list 1 []
      (cons (name s) (cons (node colon 1 (codes ":") nil) (cons (name (codes "I32")) nil)))

-- (defn heal-up [(hp : I32)] : I32 (+ hp 1))
abbrev heal : Node
heal = node list 1 [] (
    cons (name (codes "defn")) (
      cons (name (codes "heal-up")) (
        cons (node vec 1 [] (cons (param (codes "hp")) nil)) (
          cons (node colon 1 (codes ":") nil) (
            cons (name (codes "I32")) (
              cons
                (node list 1 [] (
                  cons (name (codes "+"))
                    (cons (name (codes "hp")) (cons (node number 1 (codes "1") nil) nil))))
                nil))))))

-- (defn now [] : I32 #target {:lua (inline-lua "return os.time()") :java (inline-java "clock()")})
abbrev now : Node
now = node list 2 [] (
    cons (name (codes "defn")) (
      cons (name (codes "now")) (
        cons (node vec 2 [] nil) (
          cons (node colon 2 (codes ":") nil) (
            cons (name (codes "I32")) (
              cons (name (codes "#target")) (
                cons
                  (node map 2 [] (
                    cons (node keyword 2 (codes ":lua") nil) (
                      cons
                        (node list 2 [] (
                          cons (name (codes "inline-lua"))
                            (cons (node string 2 (codes "return os.time()") nil) nil)))
                        (cons (node keyword 2 (codes ":java") nil) (
                          cons
                            (node list 2 [] (
                              cons (name (codes "inline-java"))
                                (cons (node string 2 (codes "clock()") nil) nil)))
                            nil)))))
                  nil)))))))

abbrev program : Node
program = node list 1 [] (
    cons (node list 1 [] (cons (name (codes "module")) (cons (name (codes "hp")) nil)))
      (cons heal (cons now nil)))

program_lua :
    emit_lua program
    ≡ emitted (
        module_header
        ++ codes
            "function M.healUp(hp)\n    return (hp + 1)\nend\n\nfunction M.now()\n    return os.time()\nend\n\nreturn M\n")
unfolding emit_lua emit_forms is_metadata is_call_named emit_lua_defn param_text body_text
    find_target_lua_src find_source target_value inline_source args_text emit_lua_expr lua_form_text
    binop_text fold_text symbol_text find_entry lua_ident camel_case camel_loop is_listed c_str
    bytes_eq strcmp_eq
program_lua = refl

-- (defn heal-up ...) and a bare number.
abbrev with_number : Node
with_number = node list 1 [] (cons heal (cons (node number 3 (codes "7") nil) nil))

with_number_fails : emit_lua with_number ≡ failed unsupported_form
unfolding emit_lua emit_forms is_metadata is_call_named emit_lua_defn param_text body_text args_text
    emit_lua_expr lua_form_text binop_text fold_text symbol_text find_entry lua_ident camel_case
    camel_loop is_listed c_str bytes_eq strcmp_eq
with_number_fails = refl

emit_lua_iff_example :
    IsRefused
      (form_text emit_lua_defn unsupported_form)
      IsDefn
      unsupported_form
      (children_of with_number)
emit_lua_iff_example = (emit_lua_iff with_number unsupported_form).1.0 with_number_fails
