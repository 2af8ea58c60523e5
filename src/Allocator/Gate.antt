-- ===== src/Allocator/Gate.antt =====
-- Whom the allocator of backend/src/mastra/allocator.ts compounds for.
use sorosense.Base.{
  Bool, true, Option, some, List, [], ◌∷◌, ◌++◌, ◌≡◌, refl, if◌then◌else◌, arith, keep, map, All,
  Bool-cases, inl, inr, ◌∙◌,
}
use mathlib.Core.List.{append-nil, append_assoc}
use sorosense.Double.{Doubles}
use sorosense.Seam.{Currency, Address, PoolId}
use sorosense.Allocator.{Decision, compound, rebalance, freeze_exit, noop, classify_bucket}
use sorosense.Allocator.Tick.{
  EffectCall, compound_call, AllocatorEffects, TickContext, Progress, untouched, perform, reads_on,
  compound_each, gate_compound, drive, settle, finish, input_of, run_allocator_tick, BucketStore,
}

-- A compound call is for a depositor whose preference was read, and is on.
abbrev pub IsGated : (Address → Option Bool) → EffectCall → Type 0
IsGated enabled (compound_call c pool a) = (x : Address) × (a ≡ some x) × (enabled x ≡ some true)
IsGated enabled _ = Unit

module _ (effects : AllocatorEffects) (enabled : Address → Option Bool) (c : Currency)
    (pool : PoolId) where
  abbrev pub call_for : Address → EffectCall
  call_for a = compound_call c pool (some a)

  reads_on-some : (a : Address) → reads_on enabled a ≡ true → enabled a ≡ some true
  reads_on-some a h = ground arith

  All-append :
      (xs : List EffectCall) (x : EffectCall)
      → All (IsGated enabled) xs
      → IsGated enabled x
      → All (IsGated enabled) (xs ++ (x ∷ []))
  All-append [] x h hx = (hx, tt)
  All-append (y ∷ xs) x (hy, h) hx = (hy, All-append xs x h hx)

  next_enabled :
      (a : Address) (p : Progress)
      → All (IsGated enabled) p.calls
      → All
          (IsGated enabled)
          (if reads_on enabled a then perform effects (call_for a) p.calls else p).calls
  next_enabled a p h = elim (Bool-cases (reads_on enabled a)) [
    | inl on ↦ rw on (All-append p.calls (call_for a) h (a, refl, reads_on-some a on))
    | inr off ↦ rw off h
  ]

  pub compound_each_enabled :
      (depositors : List Address) (p : Progress)
      → All (IsGated enabled) p.calls
      → All (IsGated enabled) (compound_each effects enabled c pool depositors p).calls
  unfolding compound_each
  compound_each_enabled [] p h = h
  compound_each_enabled (a ∷ rest) p h =
      let next = if reads_on enabled a then perform effects (call_for a) p.calls else p in
      let h' : All (IsGated enabled) next.calls = next_enabled a p h in
      elim (Bool-cases next.resolved) [
        | inl resolved ↦ rw resolved (compound_each_enabled rest next h')
        | inr rejected ↦ rw rejected h'
      ]

  -- Where every call resolves, exactly the depositors whose preference is on get one, in their order.
  pub compound_each_all :
      ((calls : List EffectCall) (call : EffectCall) → effects calls call ≡ true)
      → (depositors : List Address) (calls : List EffectCall)
      → compound_each effects enabled c pool depositors (record { calls = calls; resolved = true })
        ≡ record {
          calls = calls ++ map call_for (keep (reads_on enabled) depositors);
          resolved = true;
        }
  unfolding compound_each
  compound_each_all resolves [] calls = rw (append-nil calls)
  compound_each_all resolves (a ∷ rest) calls = elim (Bool-cases (reads_on enabled a)) [
    | inl on ↦
        rw (on, resolves calls (call_for a))
          (compound_each_all resolves rest (calls ++ (call_for a ∷ []))
            ∙ rw (
                append_assoc calls (call_for a ∷ []) (map call_for (keep (reads_on enabled) rest))))
    | inr off ↦ rw off (compound_each_all resolves rest calls)
  ]

module _ {d : Doubles} (enabled : Address → Option Bool) (depositors : List Address) where
  drive-IsGated :
      (ctx : TickContext d) (decision : Decision)
      → ctx.depositors ≡ some depositors
      → ctx.auto_compound_enabled ≡ some enabled
      → All (IsGated enabled) (drive d ctx decision).calls
  unfolding drive gate_compound
  drive-IsGated ctx (compound c pool) ds reader =
      rw (ds, reader) (compound_each_enabled ctx.effects enabled c pool depositors untouched tt)
  drive-IsGated ctx (rebalance c from to) ds reader = (tt, tt)
  drive-IsGated ctx (freeze_exit c pool to) ds reader = (tt, tt)
  drive-IsGated ctx (noop c reason) ds reader = tt

  finish_calls :
      (ctx : TickContext d) (decision : Decision) (p : Progress) (s : BucketStore)
      → (finish d ctx decision p s).calls ≡ p.calls
  finish_calls ctx decision p s = elim (Bool-cases p.resolved) [
    | inl resolved ↦ rw resolved refl
    | inr rejected ↦ rw rejected refl
  ]

  -- With depositors and a preference reader wired, every compound call of a tick is for a depositor
  -- whose preference was read and is on, whichever calls reject. If the tick decides to compound and
  -- every call resolves, it calls for exactly those of the depositors, in their order, and leaves the
  -- store alone.
  pub tick-IsGated :
      (ctx : TickContext d) (s : BucketStore)
      → ctx.depositors ≡ some depositors
      → ctx.auto_compound_enabled ≡ some enabled
      → All (IsGated enabled) (run_allocator_tick d ctx s).calls
        × ((c : Currency) (pool : PoolId)
            → classify_bucket d (input_of d ctx s) ≡ compound c pool
            → ((calls : List EffectCall) (call : EffectCall) → ctx.effects calls call ≡ true)
            → run_allocator_tick d ctx s ≡ record {
              calls =
                  map (call_for ctx.effects enabled c pool) (keep (reads_on enabled) depositors);
              store = s;
              decision = some (compound c pool);
            })
  unfolding run_allocator_tick drive gate_compound settle
  tick-IsGated ctx s ds reader =
      let decision = classify_bucket d (input_of d ctx s) in
      (
        rw (finish_calls ctx decision (drive d ctx decision) s)
            (drive-IsGated ctx decision ds reader),
        λ c pool chosen resolves.
            rw
              (
                chosen,
                ds,
                reader,
                compound_each_all ctx.effects enabled c pool resolves depositors [],
              )
              refl,
      )
