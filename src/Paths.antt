-- ===== src/Paths.antt =====
-- paths.py. The environment of the process is read from `Env`.
use tai_mcp_ssh.Prelude.{Option, none, some, [], ◌∷◌, if◌then◌else◌, Text, codes}
use tai_mcp_ssh.Str.Path.{PurePath, path_of, join_path}
use tai_mcp_ssh.Process.{Env}

abbrev pub app : Text
app = codes "tai-mcp-ssh"

-- `base / name`
abbrev below : PurePath → Text → PurePath
below base name = join_path base (path_of name)

-- `Path(xdg) if xdg else otherwise`
xdg_or : Option Text → PurePath → PurePath
xdg_or none otherwise = otherwise
xdg_or (some []) otherwise = otherwise
xdg_or (some (c ∷ s)) otherwise = path_of (c ∷ s)

unfoldable pub config_dir : Env → PurePath
unfolding xdg_or
config_dir env =
    below (xdg_or (env.environ (codes "XDG_CONFIG_HOME")) (below env.user_home (codes ".config")))
      app

unfoldable pub hosts_toml : Env → PurePath
hosts_toml env = below (config_dir env) (codes "hosts.toml")

unfoldable pub state_dir : Env → PurePath
unfolding xdg_or
state_dir env =
    below
      (xdg_or (env.environ (codes "XDG_STATE_HOME"))
        (below (below env.user_home (codes ".local")) (codes "state")))
      app

unfoldable pub audit_dir : Env → PurePath
audit_dir env =
    if env.is_darwin
    then below (below (below (below env.user_home (codes "Library")) (codes "Logs")) app)
        (codes "audit")
    else below (state_dir env) (codes "audit")

-- `root / host if host else root`
host_below : Option Text → PurePath → PurePath
host_below none root = root
host_below (some []) root = root
host_below (some (c ∷ s)) root = below root (c ∷ s)

unfoldable pub downloads_dir : Env → Option Text → PurePath
unfolding host_below
downloads_dir env host = host_below host (below (state_dir env) (codes "downloads"))
