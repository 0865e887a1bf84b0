-- ===== src/Lua/Tests.antt =====
-- Runs of the Lua emitter.
use parena.Prelude.{strcmp_eq, Bytes}
use parena.Ast.{Node, node, nil, cons, list, vec, symbol, number, string}
use parena.Lua.Names.{find_entry}
use parena.Emit.Out.{emitted, args_text, Emits}
use parena.Lua.Text.{if_text, let_text, binop_text, fold_text, symbol_text}
use parena.Lua.Expr.{form_text, emit_lua_expr}
use parena.Lua.Accepts.{IsLua}
use parena.Lua.Decides.{emit_lua_expr-IsLua_iff}
use parena.Prelude.{◌≡◌, refl, [], arith, codes, c_str, bytes_eq}
use parena.Lua.Buffer.{LuaBuf, lb_append, IsBuf, lb_append-IsBuf}
use parena.Lua.Names.{camel_loop, camel_case, is_listed, lua_ident}
use parena.Lua.Reserved.{IsName, lua_ident-IsName}

ident_camel : lua_ident (codes "roll-max-hp") ≡ codes "rollMaxHp"
unfolding lua_ident camel_case camel_loop is_listed c_str bytes_eq
ident_camel = refl

-- Two names of the source that are one in Lua.
ident_collides : lua_ident (codes "local") ≡ lua_ident (codes "local_")
unfolding lua_ident camel_case camel_loop is_listed c_str bytes_eq
ident_collides = refl

lua_ident-IsName_example : IsName (lua_ident (codes "local"))
lua_ident-IsName_example = lua_ident-IsName (codes "local")

abbrev nearly_full : LuaBuf
nearly_full = record { text = codes "local x = "; cap = 11 }

nearly_full-IsBuf : IsBuf nearly_full
nearly_full-IsBuf = record { positive = omega arith; fits = omega arith }

lb_append-IsBuf_example : IsBuf (lb_append nearly_full (codes "M.roll(1)"))
lb_append-IsBuf_example =
    lb_append-IsBuf nearly_full (codes "M.roll(1)") nearly_full-IsBuf (unfold c_str in omega arith)

abbrev name : Bytes → Node
name s = node symbol 1 s nil

-- (let [hp (roll-hp x)] (if (< hp 3) "low" (+ hp 1 x)))
abbrev guarded : Node
guarded = node list 1 [] (
    cons (name (codes "let")) (
      cons
        (node vec 1 [] (
          cons (name (codes "hp")) (
            cons (node list 1 [] (cons (name (codes "roll-hp")) (cons (name (codes "x")) nil)))
              nil)))
        (cons
          (node list 1 [] (
            cons (name (codes "if")) (
              cons
                (node list 1 [] (
                  cons (name (codes "<"))
                    (cons (name (codes "hp")) (cons (node number 1 (codes "3") nil) nil))))
                (cons (node string 1 (codes "low") nil) (
                  cons
                    (node list 1 [] (
                      cons (name (codes "+")) (
                        cons (name (codes "hp"))
                          (cons (node number 1 (codes "1") nil) (cons (name (codes "x")) nil)))))
                    nil)))))
          nil)))

guarded_text :
    emit_lua_expr guarded
    ≡ emitted (
        codes
          "(function() local hp = M.rollHp(x); return (function() if (hp < 3) then return \"low\" else return ((hp + 1) + x) end end)() end)()")
unfolding emit_lua_expr form_text if_text let_text binop_text fold_text args_text symbol_text
    find_entry lua_ident camel_case camel_loop is_listed c_str bytes_eq strcmp_eq
guarded_text = refl

guarded-Emits : Emits (emit_lua_expr guarded)
guarded-Emits = rw guarded_text tt

emit_lua_expr-IsLua_iff_example : IsLua guarded
emit_lua_expr-IsLua_iff_example = (emit_lua_expr-IsLua_iff guarded).0 guarded-Emits
