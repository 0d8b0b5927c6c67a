-- ===== src/Data/Templates.antt =====
-- The trait implementations of src/data.rs for scripts, signatures and templates.
use rusty_v.Base.{true, [], ◌∷◌, none, some}
use rusty_v.Data.Classes.{
  Impls, data_class, either, function_template, identity, object_template, script, script_or_module,
  signature, stack_frame, stack_trace, template, test, unbound_module_script, unbound_script,
}

unfoldable pub script_impls : Impls
script_impls = record {
  deref = none;
  try_from = [];
  from = [];
  is_eq = true;
  partial_eq = (script, identity) ∷ [];
  hash = none;
}

unfoldable pub script_or_module_impls : Impls
script_or_module_impls = record {
  deref = none;
  try_from = [];
  from = [];
  is_eq = true;
  partial_eq = (script_or_module, identity) ∷ [];
  hash = none;
}

unfoldable pub signature_impls : Impls
signature_impls = record {
  deref = some data_class;
  try_from = [];
  from = [];
  is_eq = true;
  partial_eq = (data_class, identity) ∷ (signature, identity) ∷ [];
  hash = none;
}

unfoldable pub stack_frame_impls : Impls
stack_frame_impls = record {
  deref = none;
  try_from = [];
  from = [];
  is_eq = true;
  partial_eq = (stack_frame, identity) ∷ [];
  hash = none;
}

unfoldable pub stack_trace_impls : Impls
stack_trace_impls = record {
  deref = none;
  try_from = [];
  from = [];
  is_eq = true;
  partial_eq = (stack_trace, identity) ∷ [];
  hash = none;
}

unfoldable pub template_impls : Impls
template_impls = record {
  deref = some data_class;
  try_from = (data_class, either (test function_template) (test object_template)) ∷ [];
  from = function_template ∷ object_template ∷ [];
  is_eq = true;
  partial_eq =
      (data_class, identity)
      ∷ (template, identity)
      ∷ (function_template, identity)
      ∷ (object_template, identity)
      ∷ [];
  hash = none;
}

unfoldable pub function_template_impls : Impls
function_template_impls = record {
  deref = some template;
  try_from = (data_class, test function_template) ∷ (template, test function_template) ∷ [];
  from = [];
  is_eq = true;
  partial_eq = (data_class, identity) ∷ (template, identity) ∷ (function_template, identity) ∷ [];
  hash = none;
}

unfoldable pub object_template_impls : Impls
object_template_impls = record {
  deref = some template;
  try_from = (data_class, test object_template) ∷ (template, test object_template) ∷ [];
  from = [];
  is_eq = true;
  partial_eq = (data_class, identity) ∷ (template, identity) ∷ (object_template, identity) ∷ [];
  hash = none;
}

unfoldable pub unbound_module_script_impls : Impls
unbound_module_script_impls = record {
  deref = some data_class;
  try_from = [];
  from = [];
  is_eq = true;
  partial_eq = (data_class, identity) ∷ (unbound_module_script, identity) ∷ [];
  hash = none;
}

unfoldable pub unbound_script_impls : Impls
unbound_script_impls = record {
  deref = none;
  try_from = [];
  from = [];
  is_eq = true;
  partial_eq = (unbound_script, identity) ∷ [];
  hash = none;
}
