-- ===== src/Plan/Review/Secrets.antt =====
-- What the reviews depend on: no password, and an e-mail address only by its mask.
use proxy_node_assistant.Prelude.{false, ℕ, ◌++◌, ◌∷◌, refl, ◌≡◌}
use proxy_node_assistant.Text.{codes, cut-append, has_code, trim_space, Text}
use proxy_node_assistant.Plan.Review.{mask_email, preference_summary_lines, review_lines}
use proxy_node_assistant.Plan.Types.{RouteIdentity, InstallPlan}

-- The plan with other secrets.
abbrev pub with_secrets : InstallPlan → Text → Text → InstallPlan
with_secrets p vps panel = record p {
  credentials = record p.credentials { vps_password = vps; panel_password = panel };
}

-- The plan with other e-mail addresses.
abbrev pub with_emails : InstallPlan → Text → Text → InstallPlan
with_emails p gray_email orange_email = record p {
  gray = record p.gray { email = gray_email };
  orange = record p.orange { email = orange_email };
}

-- The review is the same whatever the two passwords are, and for any two addresses with the masks
-- of the plan's.
pub review_lines_hides :
    (p : InstallPlan) (vps panel gray_email orange_email : Text)
    → mask_email gray_email ≡ mask_email p.gray.email
    → mask_email orange_email ≡ mask_email p.orange.email
    → review_lines (with_emails (with_secrets p vps panel) gray_email orange_email) ≡ review_lines p
unfolding review_lines
review_lines_hides p vps panel gray_email orange_email g o = rw (g, o)

-- Of an address the mask shows the first character of the name and the domain.
pub mask_email_shows :
    (e : Text) (c : ℕ) (name domain : Text)
    → trim_space e ≡ c ∷ (name ++ b'@' ∷ domain)
    → has_code b'@' (c ∷ name) ≡ false
    → mask_email e ≡ c ∷ (codes "***@" ++ domain)
unfolding mask_email
mask_email_shows e c name domain t h = rw (t, cut-append b'@' (c ∷ name) domain h)

-- The plan with other identities, secrets and panel account.
abbrev pub with_private :
    InstallPlan → RouteIdentity → RouteIdentity → Text → Text → Text → InstallPlan
with_private p gray orange vps account panel = record p {
  gray = gray;
  orange = orange;
  credentials = record p.credentials {
    vps_password = vps;
    panel_account = account;
    panel_password = panel;
  };
}

-- The summary for diagnostics is the same whatever the hostnames, the addresses, the account and the
-- passwords are.
pub preference_summary_lines_hides :
    (p : InstallPlan) (gray orange : RouteIdentity) (vps account panel : Text)
    → preference_summary_lines (with_private p gray orange vps account panel)
      ≡ preference_summary_lines p
unfolding preference_summary_lines
preference_summary_lines_hides p gray orange vps account panel = refl
