-- ===== src/Workflow/Registry.antt =====
-- `Registry` of pkg/workflow/workflow.go: the workflows and the activity handlers of a process, by
-- name. A handler is the user's code, and stands as a type parameter. A panic is an error here.
use Prim.Native.Nat.{Ordering}
use Prim.Native.String.{compare}
use go_project.Prelude.{
  Bool, false, true, List, map, sort_by, String, Option, if◌then◌else◌, Result, ok, err,
  already_registered, Assoc, lookup, insert, has_key,
}
use go_project.Workflow.Types.{Definition}

pub record Registry (Handler : Type 0) : Type 0 where
  pub definitions : Assoc Definition
  pub handlers : Assoc Handler

name_le : String → String → Bool
name_le a b = elim (compare a b) [ Ordering.gt ↦ false | _ ↦ true ]

module _ {Handler : Type 0} where
  unfoldable pub register : Definition → Registry Handler → Result (Registry Handler)
  register d r =
      if has_key d.name r.definitions
      then err (already_registered d.name)
      else ok (record r { definitions = insert d.name d r.definitions })

  unfoldable pub register_activity : String → Handler → Registry Handler → Registry Handler
  register_activity name handler r = record r { handlers = insert name handler r.handlers }

  unfoldable pub must_register_activity :
      String → Handler → Registry Handler → Result (Registry Handler)
  must_register_activity name handler r =
      if has_key name r.handlers
      then err (already_registered name)
      else ok (record r { handlers = insert name handler r.handlers })

  unfoldable pub definition : String → Registry Handler → Option Definition
  definition name r = lookup name r.definitions

  unfoldable pub handler : String → Registry Handler → Option Handler
  handler name r = lookup name r.handlers

  -- `Workflows`, the names in order.
  unfoldable pub workflows : Registry Handler → List String
  unfolding name_le
  workflows r = sort_by name_le (map (λ (entry : String × Definition). entry.0) r.definitions)
