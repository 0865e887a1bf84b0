-- ===== src/Lua/Module.antt =====
-- src/emit_lua.c: `emit_lua`, the definitions and the module around them. The text of a definition
-- is what the source appends to its buffer; on an error the buffer is given up.
use parena.Prelude.{List, [], ◌∷◌, ◌++◌, if◌then◌else◌, Bytes, codes}
use parena.Ast.{Node, Nodes, node, nil, cons, list, vec, map, symbol, colon, has_type, children_of}
use parena.Emit.Out.{emitted, failed, and_text, args_text}
use parena.Emit.Source.{find_source}
use parena.Emit.Top.{emit_forms}
use parena.Emit.Forms.{is_symbol}
use parena.Lua.Names.{lua_ident}
use parena.Lua.Text.{
  LuaOut, target_odd, target_missing, target_shape, target_map, defn_malformed, param_shape,
  defn_shape, unsupported_form,
}
use parena.Lua.Expr.{emit_lua_expr}

-- The text of the inline source, up to its NUL.
unfoldable pub find_target_lua_src : Nodes → LuaOut
find_target_lua_src pairs =
    find_source target_odd target_missing target_shape (codes ":lua") (codes "inline-lua") pairs

abbrev pub function_text : Bytes → Bytes → Bytes → Bytes → Bytes
function_text before name params body =
    codes "function M."
    ++ (name
        ++ (codes "(" ++ (params ++ (codes ")\n    " ++ (before ++ (body ++ codes "\nend\n\n"))))))

abbrev pub emit_target_lua_defn : Nodes → Bytes → Bytes → LuaOut
emit_target_lua_defn pairs name params =
    and_text (find_target_lua_src pairs) (λ src. emitted (function_text [] name params src))

-- A parameter `(name : Type)`, its type left out.
unfoldable pub param_text : Node → LuaOut
param_text
      (node list l s (
        cons
          (node symbol m name c)
          (cons (node colon ml ms mc) (cons (node symbol tl ts tc) nil)))) =
    emitted (lua_ident name)
param_text n = failed param_shape

abbrev pub param_texts : Nodes → List LuaOut
param_texts nil = []
param_texts (cons n ns) = param_text n ∷ param_texts ns

-- What follows the parameters: the colon, the type and the body, or the inline source.
unfoldable pub body_text : Bytes → Bytes → Nodes → LuaOut
body_text name params (cons c (cons t (cons body nil))) =
    if has_type c colon
    then and_text (emit_lua_expr body)
        (λ x. emitted (function_text (codes "return ") name params x))
    else failed defn_shape
body_text name params (cons c (cons t (cons mark (cons pairs nil)))) =
    if is_symbol mark (codes "#target")
    then (if has_type pairs map
        then emit_target_lua_defn (children_of pairs) name params
        else failed target_map)
    else failed defn_shape
body_text name params rest = failed defn_shape

-- A definition, from its children: the head, the name, the parameters and the rest.
unfoldable pub emit_lua_defn : Nodes → LuaOut
emit_lua_defn (cons d (cons (node symbol l name c) (cons (node vec vl vs params) rest))) =
    and_text (args_text (param_texts params)) (λ ps. body_text (lua_ident name) ps rest)
emit_lua_defn cs = failed defn_malformed

abbrev pub module_header : Bytes
module_header =
    codes "-- Generated by parena build (Lua target) -- do not edit by hand.\n"
    ++ (codes
          "-- Source of truth: the .prn this was emitted from. SHANKPIT compiles the SAME file to C.\n\n"
        ++ (codes "local M = {}\n\n"
            ++ (codes
                  "-- `a / b` in PARENA is C's integer division (truncation toward zero), not Lua's `//`\n"
                ++ (codes
                      "-- (floor). They disagree on every negative dividend, so the emitter routes `/` here\n"
                    ++ (codes "-- instead of pretending the two are the same operator.\n"
                        ++ (codes "local function __idiv(a, b)\n    local q = a // b\n"
                            ++ (codes "    if q < 0 and q * b ~= a then q = q + 1 end\n"
                                ++ codes "    return q\nend\n\n")))))))

unfoldable pub emit_lua : Node → LuaOut
emit_lua program =
    and_text (emit_forms emit_lua_defn unsupported_form (children_of program))
      (λ ts. emitted (module_header ++ (ts ++ codes "return M\n")))
