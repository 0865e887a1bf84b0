-- ===== src/Lua/Whole.antt =====
-- src/emit_lua.c: `emit_lua`, which programs come out and with which error the others end.
use parena.Prelude.{◌≡◌, ◌↔◌, ◌++◌, Bytes, codes}
use parena.Ast.{Node, children_of}
use parena.Emit.Out.{failed, Emits}
use parena.Emit.Shapes.{wrapped_iff, wrapped-failed_iff}
use parena.Emit.Top.{
  form_text, emit_forms, AreForms, IsRefused, emit_forms_iff, emit_forms-failed_iff,
}
use parena.Lua.Text.{LuaError, unsupported_form}
use parena.Lua.Module.{emit_lua_defn, module_header, emit_lua}
use parena.Lua.Definitions.{IsDefn, emit_lua_defn_iff}

abbrev around : Bytes → Bytes
around ts = module_header ++ (ts ++ codes "return M\n")

-- A program comes out as a Lua module, or the emitter ends with an error. The first exactly if each of
-- its forms is a `module`, `export`, `import` or `llvm-extern`, or a definition with parameters
-- `(name : Type)` of any type name and either one expression of the subset behind a colon and a type, or a `#target`
-- map of pairs whose first `:lua` is an inline string. The second exactly if some form behind such
-- forms has that error.
pub emit_lua_iff :
    (program : Node) (e : LuaError)
    → (Emits (emit_lua program) ↔ AreForms IsDefn (children_of program))
      × ((emit_lua program ≡ failed e)
          ↔ IsRefused (form_text emit_lua_defn unsupported_form) IsDefn e (children_of program))
unfolding emit_lua
emit_lua_iff program e =
    let text = emit_forms emit_lua_defn unsupported_form (children_of program) in
    let whole = wrapped_iff text around in
    let wrong = wrapped-failed_iff text around e in
    let forms =
      emit_forms_iff emit_lua_defn unsupported_form IsDefn emit_lua_defn_iff
        (children_of program) in
    let refused =
      emit_forms-failed_iff emit_lua_defn unsupported_form IsDefn emit_lua_defn_iff e
        (children_of program) in
    (
      (λ k. forms.0 (whole.0 k), λ h. whole.1 (forms.1 h)),
      (λ k. refused.0 (wrong.0 k), λ h. wrong.1 (refused.1 h)),
    )
