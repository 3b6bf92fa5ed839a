-- ===== src/Client/Spectrum.antt =====
-- What `RemoteEmitter::spectral_data` of src/emitter.rs assembles.
use enody_rs.Common.{
  ℕ, zero, suc, ◌+◌, ◌-◌, ◌^◌, ◌≤◌, ◌<◌, min, ◌≡◌, refl, ap, subst, sym, ◌∙◌, true, ltb, Bool-cases,
  inl, inr, List, [], ◌∷◌, ◌++◌, append_assoc, append-nil, length-append, length, take, drop,
  take-all, take-zero, length-take_le, take-drop, Option, some, ok, arith, Result, ◌≢◌, none, err,
}
use enody_rs.Error.{Error}
use enody_rs.Message.Topology.{SpectralSample, default_sample_count}
use enody_rs.Message.Emitter.{SpectralDataCommand, SpectralDataEvent, EmitterCommand, EmitterEvent}
use enody_rs.Message.Envelope.{Command, Event}
use enody_rs.Client.{RemoteRuntime, Exec, ◌>>=◌, lift, continue}
use enody_rs.Client.Emitter.{
  RemoteEmitter, count_of, batch_of, push_all, batch_end, sample_count, sample_batch,
  sample_batches, spectral_data, while_next, with_samples,
}
use enody_rs.Message.Network.{spectral_sample_batch_size}
use enody_rs.Client.Discovery.{Gives, Gives-bind, Replies, Replies-Gives}

batch_end-small :
    (offset count : ℕ) → offset + 32 < 2 ^ 32 → batch_end offset count ≡ min count (offset + 32)
batch_end-small offset count h = ground arith

pub push_all-fits :
    (xs ys : List SpectralSample)
    → length (xs ++ ys) ≤ default_sample_count
    → push_all xs ys ≡ ok (xs ++ ys)
unfolding push_all
push_all-fits xs [] h = ap ok (sym (append-nil xs))
push_all-fits xs (y ∷ ys) h =
    let short : length xs < default_sample_count = omega (arith, length-append xs (y ∷ ys)) in
    let e = append_assoc xs (y ∷ []) ys in
    let rest =
      push_all-fits (xs ++ y ∷ []) ys (subst (λ zs. length zs ≤ default_sample_count) (sym e) h) in
    let passes : ltb (length xs) default_sample_count ≡ true = ground arith in
    rw passes (rest ∙ ap ok e)

module _ {S : Type 0} (Ready : S → Type 0) (remote : RemoteRuntime S) (emitter : RemoteEmitter)
    (samples : List SpectralSample) (few : length samples ≤ default_sample_count)
    (batches : (offset end : ℕ)
      → offset < end
      → end ≤ length samples
      → end ≤ offset + spectral_sample_batch_size
      → Replies Ready remote
          (Command.emitter
            (EmitterCommand.spectral_data (SpectralDataCommand.sample_batch offset end)))
          emitter.info.identifier
          (Event.emitter (
            EmitterEvent.spectral_data
              (SpectralDataEvent.sample_batch (take (end - offset) (drop offset samples)))))) where
  batch-Gives :
      (offset end : ℕ)
      → offset < end
      → end ≤ length samples
      → end ≤ offset + spectral_sample_batch_size
      → Gives Ready
          (sample_batch remote emitter offset end)
          (take (end - offset) (drop offset samples))
  unfolding sample_batch
  batch-Gives offset end lo hi room =
      Replies-Gives Ready remote batch_of _ _ _ (batches offset end lo hi room) refl

  -- Pushing a batch behind the samples before its offset gives those before its end.
  push_batch :
      (offset end : ℕ)
      → offset ≤ end
      → push_all (take offset samples) (take (end - offset) (drop offset samples))
        ≡ ok (take end samples)
  push_batch offset end lo =
      let e : offset + (end - offset) ≡ end = omega arith in
      let joined = take-drop offset (end - offset) samples ∙ ap (λ n. take n samples) e in
      push_all-fits _ _ (
        subst (λ xs. length xs ≤ default_sample_count) (sym joined)
          (omega (arith, length-take_le end samples)))
      ∙ ap ok joined

  sample_batches-Gives :
      (fuel offset : ℕ)
      → offset ≤ length samples
      → length samples < offset + fuel
      → Gives Ready
          (sample_batches remote emitter fuel (length samples) offset (take offset samples))
          (some samples)
  unfolding sample_batches
  sample_batches-Gives zero offset h enough = absurd (omega arith)
  sample_batches-Gives (suc fuel) offset h enough =
      let end = batch_end offset (length samples) in
      let prefix = take offset samples in
      let tail : List SpectralSample → Exec S (Option (List SpectralSample)) =
        sample_batches remote emitter fuel (length samples) end in
      let body : Exec S (Option (List SpectralSample)) =
        sample_batch remote emitter offset end >>= λ batch. lift (push_all prefix batch) >>= tail in
      let after : Exec S (Option (List SpectralSample)) = lift (ok (some prefix)) in
      elim (Bool-cases (ltb offset (length samples))) [
        | inl e ↦
            let less : offset < length samples = ground arith in
            let within : end ≡ min (length samples) (offset + 32) =
              batch_end-small offset (length samples) (omega arith) in
            subst (λ b. Gives Ready (while_next b after body) (some samples)) (sym e)
              (Gives-bind Ready (sample_batch remote emitter offset end)
                (λ batch. lift (push_all prefix batch) >>= tail)
                (batch-Gives offset end (omega arith) (omega arith) (omega arith))
                (Gives-bind Ready
                  (lift (push_all prefix (take (end - offset) (drop offset samples)))) tail
                  (λ s r. (push_batch offset end (omega arith), r))
                  (sample_batches-Gives fuel end (omega arith) (omega arith))))
        | inr e ↦
            let all : prefix ≡ samples = take-all offset samples (ground arith) in
            subst (λ b. Gives Ready (while_next b after body) (some samples)) (sym e)
              (λ s r. (ap (λ xs. ok (some xs)) all, r))
      ]

-- An emitter of at most 401 samples that answers the count, and each range of at most 32 indices
-- with the samples there, has all its samples returned in order.
pub spectral_data-assembles :
    {S : Type 0} (Ready : S → Type 0) (remote : RemoteRuntime S) (emitter : RemoteEmitter)
    (samples : List SpectralSample)
    → length samples ≤ default_sample_count
    → Replies Ready remote
        (Command.emitter (EmitterCommand.spectral_data SpectralDataCommand.sample_count))
        emitter.info.identifier
        (Event.emitter
          (EmitterEvent.spectral_data (SpectralDataEvent.sample_count (length samples))))
    → ((offset end : ℕ)
        → offset < end
        → end ≤ length samples
        → end ≤ offset + spectral_sample_batch_size
        → Replies Ready remote
            (Command.emitter
              (EmitterCommand.spectral_data (SpectralDataCommand.sample_batch offset end)))
            emitter.info.identifier
            (Event.emitter (
              EmitterEvent.spectral_data
                (SpectralDataEvent.sample_batch (take (end - offset) (drop offset samples))))))
    → (s : S) → Ready s
    → ((spectral_data remote emitter s).0 ≡ ok (some (record { samples = samples })))
      × Ready (spectral_data remote emitter s).1
unfolding spectral_data sample_count
spectral_data-assembles Ready remote emitter samples few counts batches =
    let found : List SpectralSample → Exec _ (Option (List SpectralSample)) =
      sample_batches remote emitter (suc (length samples)) (length samples) 0 in
    Gives-bind Ready (sample_count remote emitter)
      (λ count.
        sample_batches remote emitter (suc count) count 0 [] >>= λ xs. lift (ok (with_samples xs)))
      (Replies-Gives Ready remote count_of _ _ _ counts refl)
      (Gives-bind Ready (found []) (λ xs. lift (ok (with_samples xs)))
        (subst (λ xs. Gives Ready (found xs) (some samples)) (take-zero samples)
          (sample_batches-Gives Ready remote emitter samples few batches (suc (length samples)) 0
            (omega arith) (omega arith)))
        (λ s r. (refl, r)))

-- A result that is no run out of fuel.
abbrev pub Returned : {A : Type 0} → Result (Option A) Error → Type 0
Returned r = r ≢ ok none

module _ {S : Type 0} (remote : RemoteRuntime S) (emitter : RemoteEmitter) where
  continue-Returned :
      {A B : Type 0} (r : Result A Error × S) (next : A → Exec S (Option B))
      → ((a : A) (s : S) → Returned (next a s).0)
      → Returned (continue r next).0
  continue-Returned (ok a, s) next h = h a s
  continue-Returned (err e, s) next h = λ same. cc

  -- Fuel beyond what is left of the count is enough, where the offsets stay below 2 ^ 32.
  sample_batches-Returned :
      (fuel count offset : ℕ) (samples : List SpectralSample) (s : S)
      → count + 32 ≤ 2 ^ 32
      → offset ≤ count
      → count < offset + fuel
      → Returned (sample_batches remote emitter fuel count offset samples s).0
  unfolding sample_batches
  sample_batches-Returned zero count offset samples s small h enough = absurd (omega arith)
  sample_batches-Returned (suc fuel) count offset samples s small h enough =
      let end = batch_end offset count in
      let tail : List SpectralSample → Exec S (Option (List SpectralSample)) =
        sample_batches remote emitter fuel count end in
      let body : Exec S (Option (List SpectralSample)) =
        sample_batch remote emitter offset end >>= λ batch.
        lift (push_all samples batch) >>= tail in
      let after : Exec S (Option (List SpectralSample)) = lift (ok (some samples)) in
      elim (Bool-cases (ltb offset count)) [
        | inl e ↦
            let less : offset < count = ground arith in
            let within : end ≡ min count (offset + 32) =
              batch_end-small offset count (omega arith) in
            subst (λ b. Returned (while_next b after body s).0) (sym e)
              (continue-Returned (sample_batch remote emitter offset end s) _ (λ batch s'.
                continue-Returned (lift (push_all samples batch) s') tail (λ pushed s''.
                  sample_batches-Returned fuel count end pushed s'' small (omega arith)
                    (omega arith))))
        | inr e ↦ subst (λ b. Returned (while_next b after body s).0) (sym e) (λ same. cc)
      ]

  assembled :
      (r : Result (Option (List SpectralSample)) Error × S)
      → Returned r.0
      → Returned (continue {S = S} r (λ xs. lift (ok (with_samples xs)))).0
  assembled (ok none, s) h = λ same. absurd (h refl)
  assembled (ok (some xs), s) h = λ same. cc
  assembled (err e, s) h = λ same. cc

  counted :
      (r : Result ℕ Error × S)
      → ((count : ℕ) → r.0 ≡ ok count → count + 32 ≤ 2 ^ 32)
      → Returned
          (continue r (λ count. sample_batches remote emitter (suc count) count 0 [] >>= λ xs.
            lift (ok (with_samples xs)))).0
  counted (err e, s) small = λ same. cc
  counted (ok count, s) small = assembled (sample_batches remote emitter (suc count) count 0 [] s) (
      sample_batches-Returned (suc count) count 0 [] s (small count refl) (omega arith)
        (omega arith))

  -- Whatever the emitter answers, spectral_data comes to an end, where the count of samples is at
  -- most 2 ^ 32 - 32.
  pub spectral_data-Returned :
      (s : S)
      → ((count : ℕ) → (sample_count remote emitter s).0 ≡ ok count → count + 32 ≤ 2 ^ 32)
      → (spectral_data remote emitter s).0 ≢ ok none
  unfolding spectral_data
  spectral_data-Returned s small = counted (sample_count remote emitter s) small
