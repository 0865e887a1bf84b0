-- ===== src/Java/Module.antt =====
-- src/emit_java.c: `emit_java`, the definitions and the class around them. The text of a definition
-- is what the source appends to its buffer; on an error the buffer is given up.
use parena.Prelude.{
  List, [], ◌∷◌, ◌++◌, Option, none, some, if◌then◌else◌, Bytes, codes, c_str, strcmp_eq,
}
use parena.Ast.{Node, Nodes, node, nil, cons, list, vec, map, symbol, colon, has_type, children_of}
use parena.Emit.Out.{emitted, failed, and_text, args_text}
use parena.Emit.Source.{find_source}
use parena.Emit.Top.{emit_forms}
use parena.Emit.Forms.{is_symbol}
use parena.Lua.Names.{camel_case}
use parena.Java.Text.{
  JavaOut, target_odd, target_missing, target_shape, target_map, defn_malformed, param_shape,
  defn_shape, unsupported_form, resolve_java_type,
}
use parena.Java.Expr.{emit_java_expr}

-- The text of the inline source, up to its NUL.
unfoldable pub find_target_java_src : Nodes → JavaOut
find_target_java_src pairs =
    find_source target_odd target_missing target_shape (codes ":java") (codes "inline-java") pairs

-- A method, from its type, its name, its parameters and its statement.
abbrev pub method_text : Bytes → Bytes → Bytes → Bytes → Bytes
method_text ret name params statement =
    codes "    public static "
    ++ (ret
        ++ (codes " "
            ++ (name
                ++ (codes "("
                    ++ (params ++ (codes ") {\n        " ++ (statement ++ codes "\n    }\n\n")))))))

abbrev pub returned : Bytes → Bytes
returned x = codes "return " ++ (x ++ codes ";")

abbrev pub inline_statement : Bytes → Bytes → Bytes
inline_statement ret src =
    if strcmp_eq ret (codes "void") then src else codes "return (" ++ (src ++ codes ");")

abbrev pub emit_target_java_defn : Nodes → Bytes → Bytes → Bytes → JavaOut
emit_target_java_defn pairs name params ret =
    and_text (find_target_java_src pairs)
      (λ src. emitted (method_text ret name params (inline_statement ret src)))

-- A parameter `(name : Type)`, as `Type name`.
unfoldable pub param_text : Node → JavaOut
param_text
      (node list l s (
        cons
          (node symbol m name c)
          (cons (node colon ml ms mc) (cons (node symbol tl ts tc) nil)))) =
    and_text (resolve_java_type (node symbol tl ts tc))
      (λ t. emitted (t ++ (codes " " ++ camel_case name)))
param_text n = failed param_shape

abbrev pub param_texts : Nodes → List JavaOut
param_texts nil = []
param_texts (cons n ns) = param_text n ∷ param_texts ns

-- The body behind the return type: one expression, or the inline source.
unfoldable pub body_text : Bytes → Bytes → Bytes → Nodes → JavaOut
body_text name params ret (cons body nil) =
    and_text (emit_java_expr body) (λ x. emitted (method_text ret name params (returned x)))
body_text name params ret (cons mark (cons pairs nil)) =
    if is_symbol mark (codes "#target")
    then (if has_type pairs map
        then emit_target_java_defn (children_of pairs) name params ret
        else failed target_map)
    else failed defn_shape
body_text name params ret rest = failed defn_shape

-- What follows the parameters: the colon, the return type and the body.
unfoldable pub tail_text : Bytes → Bytes → Nodes → JavaOut
tail_text name params (cons c (cons t (cons b rest))) =
    if has_type c colon
    then and_text (resolve_java_type t) (λ ret. body_text name params ret (cons b rest))
    else failed defn_shape
tail_text name params rest = failed defn_shape

-- A definition, from its children: the head, the name, the parameters and the rest.
unfoldable pub emit_java_defn : Nodes → JavaOut
emit_java_defn (cons d (cons (node symbol l name c) (cons (node vec vl vs params) rest))) =
    and_text (args_text (param_texts params)) (λ ps. tail_text (camel_case name) ps rest)
emit_java_defn cs = failed defn_malformed

abbrev pub package_line : Bytes → Bytes
package_line [] = []
package_line (c ∷ cs) = codes "package " ++ ((c ∷ cs) ++ codes ";\n\n")

abbrev pub class_header : Option Bytes → Bytes
class_header none = []
class_header (some name) = package_line (c_str name)

-- The class around the methods; the package's name may be NULL.
abbrev pub class_text : Bytes → Option Bytes → Bytes → Bytes
class_text class_name package_name methods =
    codes "// Generated by parena build (Java target) -- VS0-for-Java v0, do not edit by hand.\n\n"
    ++ (class_header package_name
        ++ (codes "public final class "
            ++ (c_str class_name ++ (codes " {\n" ++ (methods ++ codes "}\n")))))

unfoldable pub emit_java : Node → Bytes → Option Bytes → JavaOut
emit_java program class_name package_name =
    and_text (emit_forms emit_java_defn unsupported_form (children_of program))
      (λ methods. emitted (class_text class_name package_name methods))
