-- ===== src/Obs/Commands/Laws.antt =====
-- What a batch of commands may be, and what becomes of it.
use obs_instance_manager.Prelude.{
  ℕ, ◌≤◌, ◌≡◌, refl, ap, ◌⊎◌, inl, inr, true, Option, none, some, List, [], ◌∷◌, arith, length,
  Option-cases, Bool-cases, eqb, ltb, ◌||◌,
}
use obs_instance_manager.Effects.Rules.{Result-cases}
use obs_instance_manager.Instances.Services.{Instance}
use obs_instance_manager.Instances.Stop.{is_running_status}
use obs_instance_manager.Obs.Commands.{
  is_allowed, CommandInput, ObsCommand, Validated, valid, obs_error, validate_command,
  validate_each, validate_obs_commands, ObsCommandResult, ObsSocket, SocketCall, connected,
  disconnected, called, Socket, run_commands, after_connect, password_of, with_password,
  execute_obs_commands,
}

validate_command-IsAllowed :
    (input : CommandInput) (c : ObsCommand)
    → validate_command input ≡ valid c
    → (input.request ≡ some c.request) × (is_allowed c.request ≡ true)
unfolding validate_command
validate_command-IsAllowed input c h = elim (Option-cases input.request) [
  | inl e ↦ ground (arith, e, h)
  | inr (r, e) ↦ ground (arith, e, h)
]

-- The commands are those of the input in order, and all are on the list.
abbrev pub Permits : List CommandInput → List ObsCommand → Type 0
Permits [] [] = Unit
Permits (i ∷ is) (c ∷ cs) =
    (i.request ≡ some c.request) × (is_allowed c.request ≡ true) × Permits is cs
Permits _ _ = ⊥

Validated-cases :
    {A : Type 0} (v : Validated A)
    → ((a : A) × (v ≡ valid a)) ⊎ ((status : ℕ) × (v ≡ obs_error status))
Validated-cases (valid a) = inl (a, refl)
Validated-cases (obs_error status) = inr (status, refl)

validate_each-Permits :
    (inputs : List CommandInput) (commands : List ObsCommand)
    → validate_each inputs ≡ valid commands
    → Permits inputs commands
unfolding validate_each
validate_each-Permits [] [] h = tt
validate_each-Permits [] (c ∷ cs) h = ground arith
validate_each-Permits (i ∷ is) [] h = elim (Validated-cases (validate_command i)) [
  | inr (e, q) ↦ ground (arith, q, h)
  | inl (c, q) ↦ elim (Validated-cases (validate_each is)) [
    | inr (e, r) ↦ ground (arith, q, r, h)
    | inl (cs, r) ↦ ground (arith, q, r, h)
  ]
]
validate_each-Permits (i ∷ is) (c ∷ cs) h = elim (Validated-cases (validate_command i)) [
  | inr (e, q) ↦ absurd (ground (arith, q, h))
  | inl (d, q) ↦ elim (Validated-cases (validate_each is)) [
    | inr (e, r) ↦ absurd (ground (arith, q, r, h))
    | inl (ds, r) ↦
        let (request, allowed) = validate_command-IsAllowed i c (ground (arith, q, r, h)) in
        (request, allowed, validate_each-Permits is cs (ground (arith, q, r, h)))
  ]
]

-- A body that is accepted is an array of 1 to 10 commands, all of whose requests are on the list
-- of allowed ones; what is passed on is these requests in their order.
validated_commands :
    (body : Option (List CommandInput)) (commands : List ObsCommand)
    → validate_obs_commands body ≡ valid commands
    → (inputs : List CommandInput) × (body ≡ some inputs)
      × (1 ≤ length inputs)
      × (length inputs ≤ 10)
      × Permits inputs commands
unfolding validate_obs_commands
validated_commands none commands h = ground arith
validated_commands (some inputs) commands h =
    elim (Bool-cases (eqb (length inputs) 0 || ltb 10 (length inputs))) [
      | inl q ↦ absurd (ground (arith, q, h))
      | inr q ↦ (
        inputs,
        refl,
        ground (arith, q),
        ground (arith, q),
        validate_each-Permits inputs commands (ground (arith, q, h)),
      )
    ]

-- The calls of these commands, over what was done before.
abbrev pub made : List ObsCommand → List SocketCall → List SocketCall
made [] calls = calls
made (c ∷ cs) calls = made cs (called c ∷ calls)

module _ {E : Type 0} (obs : ObsSocket E) where
  run_commands-made :
      (commands : List ObsCommand) (s : Socket E)
      → let (results, s') = run_commands obs commands s in
        (length results ≡ length commands) × (s'.calls ≡ made commands s.calls)
  unfolding run_commands
  run_commands-made [] s = (refl, refl)
  run_commands-made (c ∷ cs) s =
      let (answer, env) = obs.call c s.env in
      let ih = run_commands-made cs (record { env = env; calls = called c ∷ s.calls }) in
      (omega (arith, ih.0), ih.1)

  -- A batch ends in one of two ways. Either it made no call and answers 409 (the instance does not
  -- run) or 502 (no password, no connection); or it connected, called all the commands in order,
  -- whichever of them failed, disconnected, and answers one result for each.
  pub batch_outcome :
      (instance : Instance) (commands : List ObsCommand) (s : Socket E)
      → let (r, s') = execute_obs_commands obs instance commands s in
        ((status : ℕ) × (r ≡ obs_error status)
          × ((status ≡ 409) ⊎ (status ≡ 502))
          × (s'.calls ≡ s.calls))
        ⊎ ((results : List ObsCommandResult) × (r ≡ valid results)
            × (length results ≡ length commands)
            × (s'.calls ≡ disconnected ∷ made commands (connected ∷ s.calls)))
  unfolding execute_obs_commands with_password after_connect
  batch_outcome instance commands s = elim (Bool-cases (is_running_status instance.status)) [
    | inr q ↦ rw q (inl (409, refl, inl refl, refl))
    | inl q ↦
        let (secrets, env) = obs.get_secrets instance.id s.env in
        elim (Option-cases (password_of obs secrets)) [
          | inl e ↦ rw (q, e) (inl (502, refl, inr refl, refl))
          | inr (password, e) ↦
              let (answer, env') = obs.connect instance.container_name password env in
              elim (Result-cases answer) [
                | inr (x, f) ↦ rw (q, e, f) (inl (502, refl, inr refl, refl))
                | inl (u, f) ↦
                    let open_socket : Socket E = record {
                      env = env';
                      calls = connected ∷ s.calls;
                    } in
                    let (counted, called_all) = run_commands-made commands open_socket in
                    rw (q, e, f)
                      (inr (
                        (run_commands obs commands open_socket).0,
                        refl,
                        counted,
                        ap (λ (l : List SocketCall). disconnected ∷ l) called_all,
                      ))
              ]
        ]
  ]
