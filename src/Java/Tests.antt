-- ===== src/Java/Tests.antt =====
-- Runs of the Java emitter.
use parena.Prelude.{◌≡◌, refl, [], Bytes, codes, c_str, strcmp_eq, some}
use parena.Ast.{
  Node, node, nil, cons, list, vec, map, symbol, keyword, string, number, colon, children_of,
}
use parena.Emit.Out.{emitted, args_text, Emits}
use parena.Emit.Forms.{is_call_named, is_metadata, target_value, inline_source}
use parena.Emit.Source.{find_source}
use parena.Emit.Top.{emit_forms, AreForms}
use parena.Lua.Names.{find_entry, camel_case, camel_loop}
use parena.Java.Text.{resolve_java_type, unsupported_form, symbol_text, if_text, binop_text}
use parena.Java.Expr.{form_text, emit_java_expr}
use parena.Java.Module.{
  param_text, body_text, tail_text, find_target_java_src, emit_java_defn, emit_java,
}
use parena.Java.Definitions.{IsDefn}
use parena.Java.Whole.{emit_java_iff}

abbrev name : Bytes → Node
name s = node symbol 1 s nil

-- (is-low : Bool)
abbrev param : Node
param = node list 1 [] (
    cons (name (codes "is-low"))
      (cons (node colon 1 (codes ":") nil) (cons (name (codes "Bool")) nil)))

-- (defn pick [(is-low : Bool)] : I32 (if is-low 1 (clock)))
abbrev pick : Node
pick = node list 1 [] (
    cons (name (codes "defn")) (
      cons (name (codes "pick")) (
        cons (node vec 1 [] (cons param nil)) (
          cons (node colon 1 (codes ":") nil) (
            cons (name (codes "I32")) (
              cons
                (node list 1 [] (
                  cons (name (codes "if")) (
                    cons (name (codes "is-low")) (
                      cons (node number 1 (codes "1") nil)
                        (cons (node list 1 [] (cons (name (codes "clock")) nil)) nil)))))
                nil))))))

-- (defn clock [] : I32 #target {:java (inline-java "tick")})
abbrev clock : Node
clock = node list 2 [] (
    cons (name (codes "defn")) (
      cons (name (codes "clock")) (
        cons (node vec 2 [] nil) (
          cons (node colon 2 (codes ":") nil) (
            cons (name (codes "I32")) (
              cons (name (codes "#target")) (
                cons
                  (node map 2 [] (
                    cons (node keyword 2 (codes ":java") nil) (
                      cons
                        (node list 2 [] (
                          cons (name (codes "inline-java"))
                            (cons (node string 2 (codes "tick") nil) nil)))
                        nil)))
                  nil)))))))

abbrev program : Node
program = node list 1 [] (cons pick (cons clock nil))

program_java :
    emit_java program (codes "Battery") (some (codes "gen.ui"))
    ≡ emitted (
        codes
          "// Generated by parena build (Java target) -- VS0-for-Java v0, do not edit by hand.\n\npackage gen.ui;\n\npublic final class Battery {\n    public static int pick(boolean isLow) {\n        return (isLow ? 1 : clock());\n    }\n\n    public static int clock() {\n        return (tick);\n    }\n\n}\n")
unfolding emit_java emit_forms is_metadata is_call_named emit_java_defn param_text tail_text
    body_text find_target_java_src find_source target_value inline_source args_text emit_java_expr
    form_text if_text binop_text symbol_text resolve_java_type find_entry camel_case camel_loop
    c_str strcmp_eq
program_java = refl

program-Emits : Emits (emit_java program (codes "Battery") (some (codes "gen.ui")))
program-Emits = rw program_java tt

emit_java_iff_example : AreForms IsDefn (children_of program)
emit_java_iff_example =
    (emit_java_iff program (codes "Battery") (some (codes "gen.ui")) unsupported_form).0.0
      program-Emits
