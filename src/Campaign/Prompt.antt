-- ===== src/Campaign/Prompt.antt =====
-- renderSystemPrompt and formatDueDate of campaign/manager.go.
use text.Mathlib.TextBridge.{of_list}
use vasuli.Prelude.{ℕ, String, Option, none, some}
use vasuli.Platform.{Platform}
use vasuli.Store.Tables.{Account}
use vasuli.Campaign.Rupees.{format_rupees}
use vasuli.Campaign.Template.{PromptData, execute, system_prompt_template}

abbrev spoken : Platform → String → Option ℕ → String
spoken os due none = due
spoken os due (some day) = os.format_spoken day

unfoldable pub format_due_date : Platform → String → String
format_due_date os due = spoken os due (os.parse_date due)

abbrev pub prompt_data : Platform → Account → PromptData
prompt_data os acc = record {
  customer_name = acc.customer_name;
  amount_formatted = of_list (format_rupees acc.outstanding_paise);
  product_name = acc.product_name;
  due_date = format_due_date os acc.due_date;
}

-- Executing this template on these fields cannot fail.
unfoldable pub render_system_prompt : Platform → Account → String
unfolding execute system_prompt_template
render_system_prompt os acc = execute system_prompt_template (prompt_data os acc)
