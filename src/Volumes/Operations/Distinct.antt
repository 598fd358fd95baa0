-- ===== src/Volumes/Operations/Distinct.antt =====
-- openvair/modules/volume/service_layer/services.py: the primary keys in what the service reaches.
use openvair_rde_linter.Base.{
  String, Bool, false, ◌≡◌, ◌≢◌, refl, List, arith, contains, string_eq, subst, sym, ◌∙◌,
}
use openvair_rde_linter.Service.Table.{
  Distinct, contains-add, contains-remove, add-Distinct, remove-Distinct,
}
use openvair_rde_linter.Service.Ensures.{Ensures}
use openvair_rde_linter.Volumes.{
  Volume, volume_keyed, cast_delete, World, Environment, insert, delete_row,
}
use openvair_rde_linter.Volumes.Operations.{
  ids, Operation, perform, ClonesUnderId, step, Reach, here, next,
}
use openvair_rde_linter.Volumes.Operations.Changes.{perform-Ensures}

-- no key twice, and this one not yet
abbrev Fresh : String → List String → Type 0
Fresh id xs = Distinct xs × (contains xs id ≡ false)

insert-Distinct :
    (id : String) (v : Volume)
    → v.id ≡ id
    → Ensures (λ w. Fresh id (ids w)) (insert v) (λ w. Distinct (ids w))
unfolding insert
insert-Distinct id v same = record {
  ensured =
      λ w p. add-Distinct w.volumes v p.0 (subst (λ i. contains (ids w) i ≡ false) (sym same) p.1);
}

delete_row-Distinct :
    (id : String) (v : Volume)
    → Ensures (λ w. Fresh id (ids w)) (delete_row v) (λ w. Distinct (ids w))
unfolding delete_row
delete_row-Distinct id v = record { ensured = λ w p. remove-Distinct w.volumes v.id p.0 }

-- In every state that the service reaches from one in which no two volumes have the same id, by
-- requests, casts and the periodic task in any order, whatever the other services answer, no two
-- volumes have the same id. A new id is taken to be one that the table does not have, and the
-- domain layer to give a clone the id that it is told to.
pub Reach-Distinct : (w v : World) → Reach w v → Distinct (ids w) → Distinct (ids v)
Reach-Distinct w v here d = d
Reach-Distinct w v (next r (step env op free faithful)) d =
    perform-Ensures env (Fresh env.new_id) Distinct (λ xs p. p.0) (insert-Distinct env.new_id) op _
      faithful (λ s v _ _. delete_row-Distinct env.new_id v) (Reach-Distinct w _ r d, free)

insert-contains :
    (id : String) (b : Bool) (v : Volume)
    → v.id ≢ id
    → Ensures (λ w. contains (ids w) id ≡ b) (insert v) (λ w. contains (ids w) id ≡ b)
unfolding insert
insert-contains id b v differ = record {
  ensured = λ w p. ground (arith, contains-add w.volumes v id);
}

delete_row-contains :
    (id : String) (b : Bool) (v : Volume)
    → v.id ≢ id
    → Ensures (λ w. contains (ids w) id ≡ b) (delete_row v) (λ w. contains (ids w) id ≡ b)
unfolding delete_row
delete_row-contains id b v differ = record {
  ensured = λ w p. ground (arith, contains-remove w.volumes v.id id);
}

-- A method, a cast or the periodic task leaves a volume in the table, or out of it, whatever the
-- other services answer: only the id that is new in that call can come in, and only the volume
-- whose deletion was cast can go. The domain layer is taken to give a clone the id that it is told
-- to.
pub perform-contains :
    (env : Environment) (op : Operation) (w : World) (id : String)
    → ClonesUnderId env
    → id ≢ env.new_id
    → ((volume : Volume) → op ≡ Operation.deliver (cast_delete volume) → volume.id ≢ id)
    → contains (ids (perform env op w)) id ≡ contains (ids w) id
perform-contains env op w id faithful other kept =
    perform-Ensures env (λ xs. contains xs id ≡ contains (ids w) id)
      (λ xs. contains xs id ≡ contains (ids w) id) (λ xs p. p)
      (λ v same. insert-contains id _ v (λ e. other (sym e ∙ same))) op w faithful
      (λ s v is same. delete_row-contains id _ v (λ e. kept s is (sym same ∙ e))) refl
