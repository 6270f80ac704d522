-- ===== src/Producer/Control.antt =====
-- core/producer.go: ControlLoop and the check of the fuse. The dependencies have been waited for when
-- a stop goes on. No other producer uses the fuse.
use x_pipeline.Prelude.{
  and_both, Bool, true, false, List, [], ◌∷◌, ◌++◌, Option, none, some, ◌>>=◌, ◌&&◌, if◌then◌else◌,
  ◌≡◌, refl, ap, ◌∙◌,
}
use x_pipeline.Producer.{
  active, stopping, dead, PluginControl, stop_producer, stop_consumer, roll, fuse_burn, fuse_active,
  ProducerBase, set_state, Event, rolls, stops, burns, activates, checks,
}

-- A command: the producer, what it does, and whether the loop ends.
unfoldable pub run_command : PluginControl → ProducerBase → ProducerBase × List Event × Bool
run_command stop_producer p = (set_state stopping p, if p.on_stop then stops ∷ [] else [], true)
run_command stop_consumer p = (p, [], false)
run_command roll p = (p, if p.on_roll then rolls ∷ [] else [], false)
run_command fuse_burn p = elim p.fuse [
  | none ↦ (p, [], false)
  | some true ↦ (p, [], false)
  | some false ↦ (record p { fuse = some true }, burns ∷ checks ∷ [], false)
]
run_command fuse_active p = elim p.fuse [
  | none ↦ (p, [], false)
  | some false ↦ (p, [], false)
  | some true ↦ (record p { fuse = some false }, activates ∷ [], false)
]

-- The commands of the control channel, up to a stop: the producer, what it did, and what is left of
-- the commands if the loop has ended.
pub record Controlled : Type 0 where
  pub producer : ProducerBase
  pub events : List Event
  pub left : Option (List PluginControl)

unfoldable pub run_commands : List PluginControl → ProducerBase → Controlled
unfolding run_command
run_commands [] p = record { producer = p; events = []; left = none }
run_commands (c ∷ cs) p =
    let (p', events, ends) = run_command c p in
    let rest = run_commands cs p' in
    if ends
    then record { producer = set_state dead p'; events = events; left = some cs }
    else record rest { events = events ++ rest.events }

unfoldable pub control_loop : List PluginControl → ProducerBase → Controlled
unfolding run_commands
control_loop commands p = run_commands commands (set_state active p)

-- What the timer's callback and a burned fuse start: nothing, a command, or the timer again.
pub data Check : Type 0 where
  no_check sends_active starts_timer check_panics : Check

-- `triggerCheckFuse`, with what the callback returns, if there is one.
unfoldable pub trigger_check_fuse : Option Bool → Option Bool → Check
trigger_check_fuse none fuse = no_check
trigger_check_fuse (some result) none = check_panics
trigger_check_fuse (some result) (some false) = no_check
trigger_check_fuse (some true) (some true) = sends_active
trigger_check_fuse (some false) (some true) = starts_timer

-- A fuse through some events: only one that is not burned is burned, only a burned one activated.
abbrev pub fuse_step : Option Bool → Event → Option (Option Bool)
fuse_step (some false) burns = some (some true)
fuse_step (some true) activates = some (some false)
fuse_step (some true) burns = none
fuse_step none burns = none
fuse_step (some false) activates = none
fuse_step none activates = none
fuse_step fuse e = some fuse

unfoldable pub fuse_after : Option Bool → List Event → Option (Option Bool)
fuse_after fuse [] = some fuse
fuse_after fuse (e ∷ events) = fuse_step fuse e >>= λ f. fuse_after f events

bind_assoc :
    {A B C : Type 0} (o : Option A) (f : A → Option B) (g : B → Option C) (h : A → Option C)
    → ((a : A) → h a ≡ (f a >>= g))
    → (o >>= h) ≡ ((o >>= f) >>= g)
bind_assoc none f g h e = refl
bind_assoc (some a) f g h e = e a

fuse_after-append :
    (fuse : Option Bool) (xs ys : List Event)
    → fuse_after fuse (xs ++ ys) ≡ (fuse_after fuse xs >>= λ f. fuse_after f ys)
unfolding fuse_after
fuse_after-append fuse [] ys = refl
fuse_after-append fuse (x ∷ xs) ys =
    bind_assoc (fuse_step fuse x) _ _ _ (λ f. fuse_after-append f xs ys)

if_fuse :
    (b : Bool) (e : Event) (fuse : Option Bool)
    → fuse_step fuse e ≡ some fuse
    → fuse_after fuse (if b then e ∷ [] else []) ≡ some fuse
unfolding fuse_after
if_fuse true e fuse h = rw h
if_fuse false e fuse h = refl

abbrev fused : ProducerBase → Option Bool → ProducerBase
fused p fuse = record p { fuse = fuse }

stops-fuse : (fuse : Option Bool) → fuse_step fuse stops ≡ some fuse
stops-fuse none = refl
stops-fuse (some true) = refl
stops-fuse (some false) = refl

rolls-fuse : (fuse : Option Bool) → fuse_step fuse rolls ≡ some fuse
rolls-fuse none = refl
rolls-fuse (some true) = refl
rolls-fuse (some false) = refl

run_command-fuse :
    (c : PluginControl) (p : ProducerBase) (fuse : Option Bool)
    → fuse_after fuse (run_command c (fused p fuse)).1 ≡ some (run_command c (fused p fuse)).0.fuse
unfolding run_command fuse_after
run_command-fuse stop_producer p fuse = if_fuse p.on_stop stops fuse (stops-fuse fuse)
run_command-fuse stop_consumer p fuse = refl
run_command-fuse roll p fuse = if_fuse p.on_roll rolls fuse (rolls-fuse fuse)
run_command-fuse fuse_burn p none = refl
run_command-fuse fuse_burn p (some true) = refl
run_command-fuse fuse_burn p (some false) = refl
run_command-fuse fuse_active p none = refl
run_command-fuse fuse_active p (some true) = refl
run_command-fuse fuse_active p (some false) = refl

-- A command other than a stop.
abbrev pub goes_on : PluginControl → Bool
goes_on stop_producer = false
goes_on c = true

no_end :
    (c : PluginControl) (p : ProducerBase) (fuse : Option Bool)
    → goes_on c ≡ true
    → (run_command c (fused p fuse)).2 ≡ false
unfolding run_command
no_end stop_producer p fuse e = cc
no_end stop_consumer p fuse e = refl
no_end roll p fuse e = refl
no_end fuse_burn p none e = refl
no_end fuse_burn p (some true) e = refl
no_end fuse_burn p (some false) e = refl
no_end fuse_active p none e = refl
no_end fuse_active p (some true) e = refl
no_end fuse_active p (some false) e = refl

if_either :
    (P : Controlled → Type 0) (b : Bool) (r r' : Controlled)
    → (b ≡ true → P r)
    → (b ≡ false → P r')
    → P (if b then r else r')
if_either P true r r' h h' = h refl
if_either P false r r' h h' = h' refl

abbrev pub Kept : Option Bool → Controlled → Type 0
Kept fuse r = fuse_after fuse r.events ≡ some r.producer.fuse

run_commands-fuse : (cs : List PluginControl) (p : ProducerBase) → Kept p.fuse (run_commands cs p)
unfolding run_commands fuse_after
run_commands-fuse [] p = refl
run_commands-fuse (c ∷ cs) p =
    let r = run_command c p in
    let rest = run_commands cs r.0 in
    let one = run_command-fuse c p p.fuse in
    if_either (Kept p.fuse) r.2 _ _ (λ ends. one)
      (λ on.
        fuse_after-append p.fuse r.1 rest.events
        ∙ ap (λ (o : Option (Option Bool)). o >>= λ f. fuse_after f rest.events) one
        ∙ run_commands-fuse cs r.0)

abbrev pub all_go_on : List PluginControl → Bool
all_go_on [] = true
all_go_on (c ∷ cs) = goes_on c && all_go_on cs

abbrev pub Stopped : List PluginControl → Controlled → Type 0
Stopped after r = (r.left ≡ some after) × (r.producer.state ≡ dead)

run_commands-stop :
    (before after : List PluginControl) (p : ProducerBase)
    → all_go_on before ≡ true
    → Stopped after (run_commands (before ++ stop_producer ∷ after) p)
unfolding run_commands run_command
run_commands-stop [] after p e = (refl, refl)
run_commands-stop (c ∷ before) after p e =
    if_either (Stopped after) (run_command c p).2 _ _
      (λ ends. cc (no_end c p p.fuse (and_both _ _ e).0, ends))
      (λ on. run_commands-stop before after (run_command c p).0 (and_both _ _ e).1)

-- The control loop ends with the first stop: the producer is dead, and no command behind the stop is
-- read. Its burns and activations alternate: a burned fuse is not burned, and one that is not burned is
-- not activated, and they account for the fuse that is left.
pub control_loop-stop :
    (before after : List PluginControl) (p : ProducerBase)
    → all_go_on before ≡ true
    → let r = control_loop (before ++ stop_producer ∷ after) p in
      (r.left ≡ some after)
      × (r.producer.state ≡ dead)
      × (fuse_after p.fuse r.events ≡ some r.producer.fuse)
unfolding control_loop
control_loop-stop before after p e =
    let q = set_state active p in
    let (left, state) = run_commands-stop before after q e in
    (left, state, run_commands-fuse (before ++ stop_producer ∷ after) q)
