-- ===== src/Webhook/Tests.antt =====
-- webhook.rs: the source's tests.
use watercontroller.Base.{[], ◌∷◌, ◌≡◌, refl, replace}
use watercontroller.Webhook.{VarMap, render_template}

abbrev vars : VarMap
vars = ("event", "flow_alarm.fire") ∷ ("flow_lph", "120.5") ∷ []

render_substitutes_known_vars :
    render_template "{{event}} at {{flow_lph}} L/h {{event}}" vars
    ≡ "flow_alarm.fire at 120.5 L/h flow_alarm.fire"
unfolding render_template replace
render_substitutes_known_vars = refl

render_leaves_unknown_placeholders_intact :
    render_template "{{event}} {{not_a_var}}" (("event", "boot") ∷ []) ≡ "boot {{not_a_var}}"
unfolding render_template replace
render_leaves_unknown_placeholders_intact = refl
