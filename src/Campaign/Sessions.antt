-- ===== src/Campaign/Sessions.antt =====
-- CreateCampaign, AssignSession and randomID of campaign/manager.go.
use vasuli.Prelude.{String, Option, none, some, List, [], ◌∷◌, length}
use vasuli.Exec.{Exec, other, pure, raise, ◌>>=◌, ◌>>◌}
use vasuli.World.{World, because, random_id}
use vasuli.Platform.{Platform}
use vasuli.Store.Tables.{Campaign, Account, RecoverySession, text}
use vasuli.Store.Statements.{
  insert_campaign, insert_recovery_session, insert_audit_log, get_campaign,
}
use vasuli.Store.Assign.{assign_next_pending}
use vasuli.Campaign.Prompt.{render_system_prompt}
use vasuli.Campaign.Outcome.{event}

abbrev pub new_id : String → Exec World String
new_id prefix = random_id prefix (because "campaign: id generation")

unfoldable pub create_session : Platform → String → Account → Exec World Unit
create_session os campaign_id acc = do
  session_id ← new_id "rec_"
  insert_recovery_session session_id campaign_id (render_system_prompt os acc) acc
  insert_audit_log session_id
      (event "session_created" (("customer_name", text acc.customer_name) ∷ []))

-- The loop over the accounts. An error ends it, and keeps what was written.
unfoldable pub create_sessions : Platform → String → List Account → Exec World Unit
unfolding create_session
create_sessions os campaign_id [] = pure tt
create_sessions os campaign_id (acc ∷ accounts) = do
  create_session os campaign_id acc
  create_sessions os campaign_id accounts

unfoldable pub create_campaign : Platform → String → List Account → Exec World (Option Campaign)
unfolding create_sessions
create_campaign os name [] = raise (other "campaign: cannot create campaign with zero accounts")
create_campaign os name (acc ∷ accounts) = do
  campaign_id ← new_id "camp_"
  insert_campaign campaign_id name (length (acc ∷ accounts))
  create_sessions os campaign_id (acc ∷ accounts)
  get_campaign campaign_id

unfoldable pub log_assigned : String → Option RecoverySession → Exec World (Option RecoverySession)
log_assigned call_session_id none = pure none
log_assigned call_session_id (some s) = do
  insert_audit_log s.id (event "session_assigned" (("call_session_id", text call_session_id) ∷ []))
  pure (some s)

unfoldable pub assign_session : String → Exec World (Option RecoverySession)
unfolding log_assigned
assign_session call_session_id = do
  assigned ← assign_next_pending call_session_id
  log_assigned call_session_id assigned
