-- ===== src/Tests/Resources.antt =====
-- The other resources at work.
use terraform_provider_uapi.Base.{true, false, ◌++◌, List, [], ◌∷◌}
use terraform_provider_uapi.Framework.{known, unknown, Diagnostic, value_string}
use terraform_provider_uapi.Client.World.{answered, start, Env}
use terraform_provider_uapi.Base.Text.{◌<>◌}
use terraform_provider_uapi.Any.{str, end, entry}
use terraform_provider_uapi.Provider.Reported.{
  IsReported, is_unread, is_missing, fails_behind, gone_behind, always_sent,
}
use terraform_provider_uapi.Provider.Singleton
use terraform_provider_uapi.Provider.Singleton.Outcomes.{
  patch_fails, section_for, singleton-IsReported,
}
use terraform_provider_uapi.Resources.CronJob
use terraform_provider_uapi.Resources.PackageFeed
use terraform_provider_uapi.Resources.AuthorizedKey
use terraform_provider_uapi.Resources.SystemPassword
use terraform_provider_uapi.Resources.VnstatConfig
use terraform_provider_uapi.Resources.Reported.{hand_written-IsReported}
use terraform_provider_uapi.Resources.Reported.Requests.{
  AllReported, post_refused, get_fails, get_misses,
}
use terraform_provider_uapi.Tests.Demo.{demo, client, response, always}

abbrev busy : Env
busy = always (answered (response 409 "taken" ""))

abbrev accepted {ℓ} : {A : Type ℓ} → A → List Diagnostic
accepted a = []

abbrev feed : PackageFeed.Model
feed = record {
  id = known "f";
  managed = unknown;
  name = known "f";
  url = known "http://f";
  filename = unknown;
  enabled = unknown;
  update_status = unknown;
}

abbrev key : AuthorizedKey.Model
key = record { id = known "k"; key = known "ssh-ed25519 AAAA"; type = unknown; comment = unknown }

abbrev job : CronJob.Model
job = record { id = known "j"; schedule = known "0 3 * * *"; command = known "reboot" }

abbrev password : SystemPassword.Model
password = record {
  id = unknown;
  user = known "root";
  password_wo = known "correct horse";
  password_wo_version = known "1";
}

hand_written-IsReported_example :
    AllReported demo client busy start
      ("/" <> PackageFeed.collection)
      ("/" <> PackageFeed.collection <> "/" <> value_string feed.id)
      (entry "name" (str (value_string feed.name)) (entry "url" (str (value_string feed.url)) end))
      []
      (PackageFeed.create accepted demo client (feed, []) busy start)
      (PackageFeed.refresh accepted demo client (feed, []) busy start)
      (PackageFeed.destroy accepted demo client (feed, []) busy start)
    × IsReported
        (fails_behind []
          (get_fails demo client
            ("/" <> PackageFeed.collection <> "/" <> value_string feed.id)
            busy)
          start)
        (gone_behind []
          (get_misses demo client
            ("/" <> PackageFeed.collection <> "/" <> value_string feed.id)
            busy)
          start)
        (PackageFeed.update accepted demo client (feed, []) busy start)
    × AllReported demo client busy start
        ("/" <> AuthorizedKey.collection)
        ("/" <> AuthorizedKey.collection <> "/" <> value_string key.id)
        (entry "key" (str (value_string key.key)) end)
        []
        (AuthorizedKey.create accepted demo client (key, []) busy start)
        (AuthorizedKey.refresh accepted demo client (key, []) busy start)
        (AuthorizedKey.destroy accepted demo client (key, []) busy start)
    × IsReported
        (fails_behind [] always_sent start)
        false
        (AuthorizedKey.update accepted demo (key, []) busy start)
    × AllReported demo client busy start CronJob.collection
        (CronJob.collection <> "/" <> value_string job.id)
        (entry "schedule"
          (str (value_string job.schedule))
          (entry "command" (str (value_string job.command)) end))
        []
        (CronJob.create accepted demo client (job, []) busy start)
        (CronJob.refresh accepted demo client (job, []) busy start)
        (CronJob.destroy accepted demo client (job, []) busy start)
    × IsReported
        (fails_behind [] always_sent start)
        false
        (CronJob.update accepted demo (job, []) busy start)
    × IsReported
        (fails_behind []
          (post_refused demo client "/system/password" busy (
            entry "user"
              (str (value_string password.user))
              (entry "password" (str (value_string password.password_wo)) end)))
          (record start { diags = start.diags ++ [] }))
        false
        (SystemPassword.set_password accepted demo client (password, []) (password, []) busy start)
    × IsReported
        (fails_behind [] always_sent start)
        false
        (SystemPassword.refresh accepted demo (password, []) busy start)
hand_written-IsReported_example =
    hand_written-IsReported accepted accepted accepted accepted (feed, []) (key, []) (job, [])
      (password, []) (password, []) demo client busy start

abbrev vnstat : VnstatConfig.Model
vnstat = record {
  id = known "vnstat";
  managed = known true;
  etag = known "v1";
  interfaces = known (known "br-lan" ∷ []);
}

singleton-IsReported_example :
    IsReported
      (fails_behind []
        (patch_fails accepted demo VnstatConfig.resource client vnstat "" busy)
        start)
      false
      (Singleton.create accepted demo VnstatConfig.resource client (vnstat, []) busy start)
    × IsReported
        (fails_behind []
          (λ v. is_unread (section_for accepted demo VnstatConfig.resource client busy v))
          start)
        (gone_behind []
          (λ v. is_missing (section_for accepted demo VnstatConfig.resource client busy v))
          start)
        (Singleton.refresh accepted demo VnstatConfig.resource client (vnstat, []) busy start)
    × IsReported
        (fails_behind []
          (patch_fails accepted demo VnstatConfig.resource client vnstat "v1" busy)
          (record start { diags = start.diags ++ [] }))
        false
        (Singleton.update accepted demo VnstatConfig.resource client
          (vnstat, [])
          (vnstat, [])
          busy
          start)
singleton-IsReported_example =
    singleton-IsReported accepted demo VnstatConfig.resource client (vnstat, []) (vnstat, []) busy
      start
