-- ===== src/Ontology/Emitter/Effects.antt =====
-- About the emitters of Ontology/Emitter and the tables.
use skillsphere_api.Common.{◌≡◌, arith, Bool, Option, none, some}
use skillsphere_api.Errors.{Result, ok, err}
use skillsphere_api.Action.{Action, continue}
use skillsphere_api.World.{World, Env, advance}
use skillsphere_api.Ontology.Event.{Event}
use skillsphere_api.Ontology.Emitter.{
  Sender, log_sender, sender_func, Emitter, Emitters, nop_emitter, json_emitter, outbox_emitter,
  fanout_emitter, end, nil_then, emitter_then, emit_json, emit_outbox, emit, emit_all,
}

-- The two states have the same tables but for the outbox, and the same mails.
pub record SameAccounts (w w' : World) : Type 0 where
  pub users : w'.db.users ≡ w.db.users
  pub sessions : w'.db.sessions ≡ w.db.sessions
  pub tokens : w'.db.tokens ≡ w.db.tokens
  pub identities : w'.db.identities ≡ w.db.identities
  pub mails : w'.mails ≡ w.mails

pub SameAccounts-trans : {a b c : World} → SameAccounts a b → SameAccounts b c → SameAccounts a c
SameAccounts-trans p q = ground arith

pub SameAccounts-advance : {w v : World} → SameAccounts (advance w) v → SameAccounts w v
SameAccounts-advance p = record {
  users = p.users;
  sessions = p.sessions;
  tokens = p.tokens;
  identities = p.identities;
  mails = p.mails;
}

module _ (env : Env) where
  emit_json-SameAccounts :
      (sender : Option Sender) (e : Event) (w : World) → SameAccounts w (emit_json env sender e w).1
  unfolding emit_json
  emit_json-SameAccounts none e w = ground arith
  emit_json-SameAccounts (some (log_sender b)) e w = ground arith
  emit_json-SameAccounts (some (sender_func f)) e w = ground arith

  emit_outbox-SameAccounts :
      (has_db : Bool) (e : Event) (w : World) → SameAccounts w (emit_outbox env has_db e w).1
  unfolding emit_outbox
  emit_outbox-SameAccounts has_db e w = ground arith

  then-SameAccounts :
      (r : Result (Unit {0})) (m : Action World (Unit {0})) (a b : World)
      → SameAccounts a b
      → SameAccounts b (m b).1
      → SameAccounts a (continue r (λ _. m) b).1
  then-SameAccounts (ok x) m a b p q = SameAccounts-trans p q
  then-SameAccounts (err e) m a b p q = p

  mutual
    unfolding emit

    -- No emitter changes the users, the sessions, the tokens or the identities.
    pub emit-SameAccounts :
        (m : Emitter) (e : Event) (w : World) → SameAccounts w (emit env m e w).1
    emit-SameAccounts nop_emitter e w = ground arith
    emit-SameAccounts (json_emitter sender) e w = emit_json-SameAccounts sender e w
    emit-SameAccounts (outbox_emitter has_db) e w = emit_outbox-SameAccounts has_db e w
    emit-SameAccounts (fanout_emitter es) e w = emit_all-SameAccounts es e w

    pub emit_all-SameAccounts :
        (es : Emitters) (e : Event) (w : World) → SameAccounts w (emit_all env es e w).1
    emit_all-SameAccounts end e w = ground arith
    emit_all-SameAccounts (nil_then es) e w = emit_all-SameAccounts es e w
    emit_all-SameAccounts (emitter_then m es) e w =
        then-SameAccounts (emit env m e w).0 (emit_all env es e) w (emit env m e w).1
          (emit-SameAccounts m e w) (emit_all-SameAccounts es e (emit env m e w).1)
