-- ===== src/Ts/Tests.antt =====
-- Runs of the TypeScript emitter.
use parena.Prelude.{◌≡◌, refl, false, [], ◌∷◌, some, set, Bytes, codes, c_str, bytes_eq, strcmp_eq}
use parena.Ast.{Nodes, Node, node, nil, cons, list, vec, symbol, string, number, colon}
use parena.Emit.Out.{emitted, args_text}
use parena.Emit.Forms.{is_call_named, is_metadata}
use parena.Lua.Names.{find_entry, is_listed}
use parena.Sugar.{sugar_children, expand}
use parena.Sugar.Forms.{expand_form, is_fold_op}
use parena.Ts.Names.{camel_loop, camel_case, ident, is_js_ident}
use parena.Ts.Literal.{ts_string_literal, read_literal, read_literal-ts_string_literal}
use parena.Ts.Context.{TsTypeCtx, no_locals_yet, lookup_local, push_var}
use parena.Ts.Text.{if_text, binop_text}
use parena.Ts.Js.{callback_text, emit_js_form, method_text, global_text}
use parena.Ts.Expr.{form_text, minus_or, emit_ts_expr}
use parena.Ts.Types.{HasType, type_of}
use parena.Ts.Sound.{emit_ts_expr-HasType_iff}
use parena.Ts.Dest.{return, finish_value, binder_of, emit_bindings, set_stmt, recur_stmt}
use parena.Ts.Stmt.{needs_stmt, value_stmt, ts_stmt}
use parena.Ts.Same.{Restores}
use parena.Ts.Restores.{ts_stmt-Restores}
use parena.Ts.Module.{
  emit_params, resolve_ts_type, emit_ts_body, emit_ts_defn, sugar_defn, sugar_program, signature,
  signatures, emit_def, emit_defs, emit_functions, emit_start, emit_starts, emit_ts,
}

abbrev name : Bytes → Node
name s = node symbol 1 s nil

abbrev num : Bytes → Node
num s = node number 1 s nil

abbrev form : Nodes → Node
form cs = node list 1 [] cs

abbrev form2 : Bytes → Node → Node → Node
form2 h a b = form (cons (name h) (cons a (cons b nil)))

-- (n : I32)
abbrev param : Node
param =
    form (
      cons (name (codes "n")) (cons (node colon 1 (codes ":") nil) (cons (name (codes "I32")) nil)))

-- (loop [i 0 acc 1] (if (< i n) (recur (+ i 1) (* acc 2)) acc))
abbrev power : Node
power = form (
    cons (name (codes "loop")) (
      cons
        (node vec 1 [] (
          cons (name (codes "i"))
            (cons (num (codes "0")) (cons (name (codes "acc")) (cons (num (codes "1")) nil)))))
        (cons
          (form (
            cons (name (codes "if")) (
              cons (form2 (codes "<") (name (codes "i")) (name (codes "n"))) (
                cons
                  (form2 (codes "recur") (form2 (codes "+") (name (codes "i")) (num (codes "1")))
                    (form2 (codes "*") (name (codes "acc")) (num (codes "2"))))
                  (cons (name (codes "acc")) nil)))))
          nil)))

-- (def best 0) (defn power-of! [(n : I32)] : I32 (set! best n) (loop ...)) (start (power-of! 3))
abbrev program : Node
program = form (
    cons (form2 (codes "def") (name (codes "best")) (num (codes "0"))) (
      cons
        (form (
          cons (name (codes "defn")) (
            cons (name (codes "power-of!")) (
              cons (node vec 1 [] (cons param nil)) (
                cons (node colon 1 (codes ":") nil) (
                  cons (name (codes "I32")) (
                    cons (form2 (codes "set!") (name (codes "best")) (name (codes "n")))
                      (cons power nil))))))))
        (cons
          (form (
            cons (name (codes "start"))
              (cons (form (cons (name (codes "power-of!")) (cons (num (codes "3")) nil))) nil)))
          nil)))

program_ts :
    emit_ts program
    ≡ emitted (
        codes
          "// Generated by parena build (TypeScript target) -- VS0-for-TS v0, do not edit by hand.\n\nlet best: number = 0;\n\nexport function powerOfBang(n: number): number {\n    best = n;\n    {\n        let i: number = 0;\n        let acc: number = 1;\n        while (true) {\n            if ((i < n)) {\n                const _t0 = (i + 1);\n                const _t1 = (acc * 2);\n                i = _t0;\n                acc = _t1;\n                continue;\n            } else {\n                return acc;\n            }\n            break;\n        }\n    }\n}\n\npowerOfBang(3);\n")
unfolding emit_ts emit_params resolve_ts_type emit_ts_body emit_ts_defn sugar_defn sugar_program
    signature signatures emit_def emit_defs emit_functions emit_start emit_starts is_call_named
    is_metadata args_text find_entry is_listed sugar_children expand expand_form is_fold_op
    camel_loop camel_case ident push_var lookup_local if_text binop_text form_text minus_or
    emit_ts_expr finish_value binder_of emit_bindings set_stmt recur_stmt needs_stmt value_stmt
    ts_stmt c_str bytes_eq strcmp_eq
program_ts = refl

abbrev in_power : TsTypeCtx
in_power = record {
  fns = (codes "power-of!", codes "I32") ∷ [];
  params = set no_locals_yet 0 (codes "n", codes "I32");
  param_count = 1;
  globals = (codes "best", codes "I32") ∷ [];
  tmp = 0;
  ret_void = false;
}

-- (js/call (js/global "console") "log" (/ n 2) (callback power-of!))
abbrev logged : Node
logged = form (
    cons (name (codes "js/call")) (
      cons (form (cons (name (codes "js/global")) (cons (node string 1 (codes "console") nil) nil)))
        (cons (node string 1 (codes "log") nil) (
          cons (form2 (codes "/") (name (codes "n")) (num (codes "2"))) (
            cons (form (cons (name (codes "callback")) (cons (name (codes "power-of!")) nil)))
              nil)))))

logged_any : type_of (emit_ts_expr in_power logged) ≡ some (codes "Any")
unfolding emit_ts_expr lookup_local form_text minus_or find_entry emit_js_form method_text
    global_text is_js_ident args_text c_str bytes_eq strcmp_eq binop_text callback_text
logged_any = refl

emit_ts_expr-HasType_iff_example : HasType in_power logged (codes "Any")
emit_ts_expr-HasType_iff_example =
    (emit_ts_expr-HasType_iff in_power logged (codes "Any")).0 logged_any

ts_stmt-Restores_example : Restores in_power (ts_stmt 1 return in_power power)
ts_stmt-Restores_example = ts_stmt-Restores 1 return in_power power

-- A quote, a line end, a backslash and a control character.
read_literal-ts_string_literal_example :
    read_literal (ts_string_literal (b'"' ∷ 10 ∷ b'\\' ∷ 31 ∷ b'a' ∷ []))
    ≡ some (b'"' ∷ 10 ∷ b'\\' ∷ 31 ∷ b'a' ∷ [])
read_literal-ts_string_literal_example =
    read_literal-ts_string_literal (b'"' ∷ 10 ∷ b'\\' ∷ 31 ∷ b'a' ∷ [])
