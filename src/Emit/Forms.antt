-- ===== src/Emit/Forms.antt =====
-- src/emit_lua.c, src/emit_java.c: how a form is told by its head, and the inline source in a
-- `#target` map.
use parena.Prelude.{
  Bool, false, ◌&&◌, ◌||◌, Option, none, some, if◌then◌else◌, Bytes, codes, strcmp_eq,
}
use parena.Ast.{Node, Nodes, node, nil, cons, list, symbol, keyword, string, has_type, text_of}

abbrev pub is_symbol : Node → Bytes → Bool
is_symbol n text = has_type n symbol && strcmp_eq (text_of n) text

unfoldable pub is_call_named : Node → Bytes → Bool
is_call_named (node list l s (cons head args)) name = is_symbol head name
is_call_named n name = false

-- Forms that mean nothing to these targets.
unfoldable pub is_metadata : Node → Bool
is_metadata form =
    is_call_named form (codes "module")
    || (is_call_named form (codes "export")
        || (is_call_named form (codes "import") || is_call_named form (codes "llvm-extern")))

-- The value behind the first key `target` of the pairs.
unfoldable pub target_value : Bytes → Nodes → Option Node
target_value target nil = none
target_value target (cons k nil) = none
target_value target (cons k (cons v rest)) =
    let more = target_value target rest in
    if has_type k keyword && strcmp_eq (text_of k) target then some v else more

-- The string of a form with the head `inline` and no other argument.
unfoldable pub inline_source : Bytes → Node → Option Bytes
inline_source inline (node list l s (cons head (cons (node string m t c) nil))) =
    if is_symbol head inline then some t else none
inline_source inline n = none
