-- ===== src/Agent/Natives/Order.antt =====
-- What the flush of the native symbols does: it offers them in the order of their registration and
-- empties the queue.
use mathlib.Core.List.{append-nil, append_assoc}
use aitrios_edge_device_core.Base.{
  ◌≡◌, refl, ◌∙◌, Bool, true, false, List, [], ◌∷◌, ◌++◌, if◌then◌else◌, pos, negsuc, Bool-cases,
  inl, inr, ℤ, ◌-◌, suc, length, arith,
}
use aitrios_edge_device_core.Agent.{NativeSymbolEntry, Agent, Outside}
use aitrios_edge_device_core.Agent.Natives.{flush_entries, flush_wasm_native_symbols}

-- The entries that are registered when those before are `done`, up to the first refusal, and
-- whether there is one.
abbrev pub taken_of :
    Outside → List NativeSymbolEntry → List NativeSymbolEntry → List NativeSymbolEntry
taken_of o done [] = []
taken_of o done (entry ∷ rest) =
    let more = entry ∷ taken_of o (done ++ entry ∷ []) rest in
    if o.accepts done entry then more else []

abbrev pub refused_of : Outside → List NativeSymbolEntry → List NativeSymbolEntry → Bool
refused_of o done [] = false
refused_of o done (entry ∷ rest) =
    let more = refused_of o (done ++ entry ∷ []) rest in if o.accepts done entry then more else true

module _ {S : Type 0} (o : Outside) where
  -- The block of the first entry, and those of the rest.
  freed_blocks :
      (a : Agent S) (rest : List NativeSymbolEntry) (ret : ℤ) (registered : List NativeSymbolEntry)
      → ◌≡◌ {A = ℤ × Agent S}
          (
            ret,
            record a {
              queue = [];
              symbol_blocks = a.symbol_blocks - 1 - length rest;
              registered = registered;
            },
          )
          (
            ret,
            record a {
              queue = [];
              symbol_blocks = a.symbol_blocks - suc (length rest);
              registered = registered;
            },
          )
  freed_blocks a rest ret registered =
      let same : a.symbol_blocks - 1 - length rest ≡ a.symbol_blocks - suc (length rest) =
        omega arith in
      λ i. (ret, record a { queue = []; symbol_blocks = same i; registered = registered })

  flush_failed :
      (rest : List NativeSymbolEntry) (a : Agent S)
      → a.queue ≡ rest
      → flush_entries o (negsuc 0) rest a
        ≡ (negsuc 0, record a { queue = []; symbol_blocks = a.symbol_blocks - length rest })
  unfolding flush_entries
  flush_failed [] a q =
      let same : a.symbol_blocks ≡ a.symbol_blocks - 0 = omega arith in
      λ i. (negsuc 0, record a { queue = q i; symbol_blocks = same i })
  flush_failed (entry ∷ rest) a q =
      flush_failed rest (record a { queue = rest; symbol_blocks = a.symbol_blocks - 1 }) refl
      ∙ freed_blocks a rest (negsuc 0) a.registered

  flush_entries_lem :
      (rest : List NativeSymbolEntry) (a : Agent S)
      → a.queue ≡ rest
      → flush_entries o (pos 0) rest a ≡ (
        if refused_of o a.registered rest then negsuc 0 else pos 0,
        record a {
          queue = [];
          symbol_blocks = a.symbol_blocks - length rest;
          registered = a.registered ++ taken_of o a.registered rest;
        },
      )
  unfolding flush_entries
  flush_entries_lem [] a q =
      let same : a.symbol_blocks ≡ a.symbol_blocks - 0 = omega arith in
      (λ i. (pos 0, record a { queue = q i; symbol_blocks = same i }))
      ∙ rw (append-nil a.registered)
  flush_entries_lem (entry ∷ rest) a q = elim (Bool-cases (o.accepts a.registered entry)) [
    | inl taken ↦
        let a' = record a {
          queue = rest;
          symbol_blocks = a.symbol_blocks - 1;
          registered = a.registered ++ entry ∷ [];
        } in
        rw taken (
          flush_entries_lem rest a' refl
          ∙ rw (append_assoc a.registered (entry ∷ [])) (freed_blocks a rest _ _))
    | inr refused ↦ rw refused (
        flush_failed rest (record a { queue = rest; symbol_blocks = a.symbol_blocks - 1 }) refl
        ∙ rw (append-nil a.registered) (freed_blocks a rest _ _))
  ]

  -- The flush offers the queued symbols in the order of their registration up to the first one that
  -- the runtime refuses, in which case it returns -1, and in any case empties the queue and frees a
  -- block for each of them.
  pub flush_wasm_native_symbols_lem :
      (a : Agent S)
      → flush_wasm_native_symbols o a ≡ (
        if refused_of o a.registered a.queue then negsuc 0 else pos 0,
        record a {
          queue = [];
          symbol_blocks = a.symbol_blocks - length a.queue;
          registered = a.registered ++ taken_of o a.registered a.queue;
        },
      )
  unfolding flush_wasm_native_symbols
  flush_wasm_native_symbols_lem a = flush_entries_lem a.queue a refl

  pub flush_calls : (a : Agent S) → (flush_wasm_native_symbols o a).1.calls ≡ a.calls
  flush_calls a = rw (flush_wasm_native_symbols_lem a)
