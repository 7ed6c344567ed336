-- ===== src/GithubApp.antt =====
-- src/github-app: the calls of GitHub that the services make (client.ts), and the checks that stand
-- between a repository selection and an installation token (access.ts).
pub mod Client
pub mod Access
pub mod Authorized
