-- ===== src/Java/Whole.antt =====
-- src/emit_java.c: `emit_java`, which programs come out and with which error the others end.
use parena.Prelude.{◌≡◌, ◌↔◌, Bytes, Option}
use parena.Ast.{Node, children_of}
use parena.Emit.Out.{failed, Emits}
use parena.Emit.Shapes.{wrapped_iff, wrapped-failed_iff}
use parena.Emit.Top.{
  form_text, emit_forms, AreForms, IsRefused, emit_forms_iff, emit_forms-failed_iff,
}
use parena.Java.Text.{JavaError, unsupported_form}
use parena.Java.Module.{emit_java_defn, class_text, emit_java}
use parena.Java.Definitions.{IsDefn, emit_java_defn_iff}

-- Whatever the class and the package, a program comes out as a Java class, or the emitter ends with
-- an error. The first exactly if each form is a `module`, `export`, `import` or `llvm-extern`, or a
-- definition of the subset: parameters and a return type of the five types, Unit among them, and one
-- expression or an inline source.
-- The second exactly if some form behind such forms has that error.
pub emit_java_iff :
    (program : Node) (class_name : Bytes) (package_name : Option Bytes) (e : JavaError)
    → (Emits (emit_java program class_name package_name) ↔ AreForms IsDefn (children_of program))
      × ((emit_java program class_name package_name ≡ failed e)
          ↔ IsRefused (form_text emit_java_defn unsupported_form) IsDefn e (children_of program))
unfolding emit_java
emit_java_iff program class_name package_name e =
    let text = emit_forms emit_java_defn unsupported_form (children_of program) in
    let whole = wrapped_iff text (class_text class_name package_name) in
    let wrong = wrapped-failed_iff text (class_text class_name package_name) e in
    let forms =
      emit_forms_iff emit_java_defn unsupported_form IsDefn emit_java_defn_iff
        (children_of program) in
    let refused =
      emit_forms-failed_iff emit_java_defn unsupported_form IsDefn emit_java_defn_iff e
        (children_of program) in
    (
      (λ k. forms.0 (whole.0 k), λ h. whole.1 (forms.1 h)),
      (λ k. refused.0 (wrong.0 k), λ h. wrong.1 (refused.1 h)),
    )
